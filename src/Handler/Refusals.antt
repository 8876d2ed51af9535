-- ===== src/Handler/Refusals.antt =====
-- The status of a response and what stands in the store behind it.
use muninn.Prelude.{◌≡◌, refl, Bool, true, false, Option, none, some, ◌≤◌, ◌<◌, arith}
use muninn.Text.{Text}
use muninn.Outside.{Outside}
use muninn.Exec.{Result, ok, err, Exec}
use muninn.Handler.{Response, Handle, call, refuse_if, with_body, with_value, answer, parse_n}
use muninn.Handler.Interface.{Store, IsAtomic, IsAtomicCall}
use muninn.Handler.Peers.{
  handle_register, handle_refresh, handle_get, handle_get_by_key, handle_delete, handle_list,
  handle_get_best_peers, handle_get_best_thick_peers, handle_heartbeat, handle_set_signal,
  handle_poll_signals, health,
}
use muninn.Handler.Chunks.{
  handle_register_chunk, handle_report_chunk, handle_confirm_chunk, handle_read_chunk,
  handle_get_chunks_by_recipient, handle_get_chunks_by_file_id, parse_index,
}
use muninn.Handler.Requests.{Request, handle}

-- A response of status 400 or more comes with the state as it was.
abbrev pub IsRefusal : {S : Type 0} → S → Response × S → Type 0
IsRefusal s (r, s') = 400 ≤ r.status → s' ≡ s

module _ {S : Type 0} (s : S) where
  call-IsRefusal :
      {A : Type 0} (m : Exec S A) (f : A → Response)
      → IsAtomicCall m
      → ((a : A) → (f a).status < 400)
      → IsRefusal s (call m f s)
  unfolding call
  call-IsRefusal {A} m f atomic fine = cases (m s).0 refl
    where
      cases : (r : Result A) → (m s).0 ≡ r → 400 ≤ (answer r f).status → (m s).1 ≡ s
      cases (ok a) e h = absurd (omega (arith, fine a))
      cases (err e) same h = atomic s e (rw same refl)

  refuse_if-IsRefusal :
      (bad : Bool) (msg : Text) (next : Handle S)
      → IsRefusal s (next s)
      → IsRefusal s (refuse_if bad msg next s)
  unfolding refuse_if
  refuse_if-IsRefusal true msg next h = λ _. refl
  refuse_if-IsRefusal false msg next h = h

  with_body-IsRefusal :
      {B : Type 0} (body : Option B) (next : B → Handle S)
      → ((b : B) → IsRefusal s (next b s))
      → IsRefusal s (with_body body next s)
  unfolding with_body
  with_body-IsRefusal none next h = λ _. refl
  with_body-IsRefusal (some b) next h = h b

  with_value-IsRefusal :
      {B : Type 0} (v : Option B) (msg : Text) (next : B → Handle S)
      → ((b : B) → IsRefusal s (next b s))
      → IsRefusal s (with_value v msg next s)
  unfolding with_value
  with_value-IsRefusal none msg next h = λ _. refl
  with_value-IsRefusal (some b) msg next h = h b

module _ {S : Type 0} (st : Store S) (atomic : IsAtomic st) (o : Outside) (s : S) where
  -- Over a store whose calls leave the state as it was where they return an error, a request that
  -- is answered by a status of 400 or more changes nothing, whatever in it was refused.
  pub refused_keeps : (r : Request) → 400 ≤ (handle st o r s).0.status → (handle st o r s).1 ≡ s
  refused_keeps (Request.register body) =
      unfold handle_register in
      with_body-IsRefusal s body _
        λ req. call-IsRefusal s _ _ (atomic.upsert o req) (λ _. omega arith)
  refused_keeps (Request.refresh body) =
      unfold handle_refresh in
      with_body-IsRefusal s body _
        λ req. call-IsRefusal s _ _ (atomic.refresh o req) (λ _. omega arith)
  refused_keeps (Request.get id) =
      unfold handle_get in
      refuse_if-IsRefusal s _ _ _ (call-IsRefusal s _ _ (atomic.get o id) (λ _. omega arith))
  refused_keeps (Request.get_by_key login signature) =
      unfold handle_get_by_key in
      refuse_if-IsRefusal s _ _ _ (
        refuse_if-IsRefusal s _ _ _
          (call-IsRefusal s _ _ (atomic.get_by_key o login signature) (λ _. omega arith)))
  refused_keeps (Request.delete id) =
      unfold handle_delete in
      refuse_if-IsRefusal s _ _ _ (call-IsRefusal s _ _ (atomic.delete o id) (λ _. omega arith))
  refused_keeps Request.list =
      unfold handle_list in call-IsRefusal s _ _ (atomic.list o) (λ _. omega arith)
  refused_keeps (Request.get_best_peers n) =
      unfold handle_get_best_peers in
      with_value-IsRefusal s (parse_n n) _ _
        λ k. call-IsRefusal s _ _ (atomic.get_best_peers o k) (λ _. omega arith)
  refused_keeps (Request.get_best_thick_peers n) =
      unfold handle_get_best_thick_peers in
      with_value-IsRefusal s (parse_n n) _ _
        λ k. call-IsRefusal s _ _ (atomic.get_best_thick_peers o k) (λ _. omega arith)
  refused_keeps (Request.heartbeat id ttl) =
      unfold handle_heartbeat in
      refuse_if-IsRefusal s _ _ _
        (call-IsRefusal s _ _ (atomic.heartbeat o id ttl) (λ _. omega arith))
  refused_keeps (Request.set_signal id body) =
      unfold handle_set_signal in
      refuse_if-IsRefusal s _ _ _ (
        with_body-IsRefusal s body _
          λ sig. call-IsRefusal s _ _ (atomic.set_signal o id sig) (λ _. omega arith))
  refused_keeps (Request.poll_signals id) =
      unfold handle_poll_signals in
      refuse_if-IsRefusal s _ _ _
        (call-IsRefusal s _ _ (atomic.poll_signals o id) (λ _. omega arith))
  refused_keeps Request.health = unfold health in λ _. refl
  refused_keeps (Request.register_chunk file_id index body) =
      unfold handle_register_chunk in
      with_value-IsRefusal s (parse_index index) _ _ λ i.
        with_body-IsRefusal s body _
          λ req. call-IsRefusal s _ _ (atomic.set_chunk_hash o file_id i req) (λ _. omega arith)
  refused_keeps (Request.report_chunk id body) =
      unfold handle_report_chunk in
      refuse_if-IsRefusal s _ _ _ (
        with_body-IsRefusal s body _
          λ req. call-IsRefusal s _ _ (atomic.report_chunk o id req) (λ _. omega arith))
  refused_keeps (Request.confirm_chunk body) =
      unfold handle_confirm_chunk in
      with_body-IsRefusal s body _
        λ req. call-IsRefusal s _ _ (atomic.confirm_chunk o req) (λ _. omega arith)
  refused_keeps (Request.read_chunk body) =
      unfold handle_read_chunk in
      with_body-IsRefusal s body _
        λ req. call-IsRefusal s _ _ (atomic.read_chunk o req) (λ _. omega arith)
  refused_keeps (Request.get_chunks_by_recipient id from) =
      unfold handle_get_chunks_by_recipient in
      refuse_if-IsRefusal s _ _ _
        (call-IsRefusal s _ _ (atomic.get_chunks_by_recipient o id _) (λ _. omega arith))
  refused_keeps (Request.get_chunks_by_file_id id) =
      unfold handle_get_chunks_by_file_id in
      refuse_if-IsRefusal s _ _ _
        (call-IsRefusal s _ _ (atomic.get_chunks_by_file_id o id) (λ _. omega arith))
