-- ===== src/Memory/Chunks/Listing.antt =====
-- A registered chunk, for the readers of the store.
use muninn.Prelude.{
  ℕ, ◌≡◌, ◌<◌, ◌^◌, refl, Bool, true, false, Option, none, some, List, [], ◌∷◌, ◌++◌, arith, In,
  here, there, In-append_right, keep-In, keep, map, if◌then◌else◌, ap, subst, ◌∙◌,
}
use muninn.Prelude.Int.{ℤ, pos, leb_ℤ}
use muninn.Text.{Text, is_empty, trim_space, text_eq}
use muninn.Text.Equality.{text_eq_refl}
use muninn.Text.Split.{Lacks}
use muninn.Model.{RegisterChunkRequest, ChunkRecord}
use muninn.Outside.{Outside, unix_now}
use muninn.Hash.{chunk_key, parse_chunk_key, normalize_hash}
use muninn.Hash.Keys.{parse_chunk_key-chunk_key}
use muninn.Score.{invalid_chunk}
use muninn.Exec.{Result, ok, err}
use muninn.Exec.Rules.{after_reject, after_get, after_pure}
use muninn.Memory.{Memory, ChunkRecordEntry, find_first}
use muninn.Memory.Chunks.{set_chunk_hash, get_chunks_by_file_id, to_record, expected_hash, hash_of}
use muninn.Memory.Chunks.Outcome.{new_entry, set_chunk_hash_outcome}

In-map :
    {e : ChunkRecordEntry} (f : ChunkRecordEntry → ChunkRecord) {es : List ChunkRecordEntry}
    → In e es
    → In (f e) (map f es)
In-map f (here h) = here (ap f h)
In-map f (there m) = there (In-map f m)

get_chunks_outcome {ℓ} :
    (f : Text) (s : Memory) (Q : Result (List ChunkRecord) × Memory → Type ℓ)
    → (is_empty (trim_space f) ≡ true → Q (err invalid_chunk, s))
    → (is_empty (trim_space f) ≡ false
        → Q (
          ok (
              map
                (to_record (trim_space f))
                (keep (λ e. text_eq (parse_chunk_key e.chunk).0 (trim_space f)) s.chunks)),
          s,
        ))
    → Q (get_chunks_by_file_id f s)
unfolding get_chunks_by_file_id
get_chunks_outcome f s Q bad done =
    after_reject Q _ _ s bad λ good. after_get Q _ s (after_pure Q _ _ (done good))

-- The record that lists a chunk which was registered at `o`, field by field.
abbrev pub new_record : Outside → Text → ℤ → RegisterChunkRequest → ChunkRecord
new_record o f i req = record {
  file_id = trim_space f;
  chunk_index = i;
  sender_id = trim_space req.sender_id;
  recipient_id = trim_space req.recipient_id;
  hash = normalize_hash o.lower_wide req.hash;
  peer_id = trim_space req.peer_id;
  persist = req.persist;
  confirmed = false;
  readed = false;
  created_at = unix_now o;
  updated_at = unix_now o;
  ttl = if leb_ℤ req.ttl (pos 0) then pos 86400 else req.ttl;
}

module _ (o : Outside) (f : Text) (req : RegisterChunkRequest) (s : Memory) where
  -- A chunk that was registered is listed under its trimmed file id with its index, its normalised
  -- hash, its trimmed sender, recipient and peer, and its mark to persist, as unconfirmed and
  -- unread, with the time of the registration and the time to live that was asked for, or one day
  -- if that is not positive; if the trimmed file id holds no `#` and the index is below 2 ^ 63.
  pub get_chunks_by_file_id-set_chunk_hash :
      (i : ℕ)
      → Lacks b'#' (trim_space f)
      → i < 2 ^ 63
      → (set_chunk_hash o f (pos i) req s).0 ≡ ok tt
      → (rs : List ChunkRecord) × ((get_chunks_by_file_id f (set_chunk_hash o f (pos i) req s).1).0
          ≡ ok rs)
        × In (new_record o f (pos i) req) rs
  get_chunks_by_file_id-set_chunk_hash i plain small =
      set_chunk_hash_outcome o f (pos i) req s
        (λ r.
          r.0 ≡ ok tt
          → (rs : List ChunkRecord) × ((get_chunks_by_file_id f r.1).0 ≡ ok rs)
            × In (new_record o f (pos i) req) rs)
        (λ _ h. cc)
        λ _ good _ _ _.
          get_chunks_outcome f _
            (λ r. (rs : List ChunkRecord) × (r.0 ≡ ok rs) × In (new_record o f (pos i) req) rs)
            (λ bad. cc (bad, good.file)) (λ _. (_, refl, listed))
    where
      entry : ChunkRecordEntry
      entry = new_entry o f (pos i) req

      back : parse_chunk_key entry.chunk ≡ (trim_space f, pos i)
      back = parse_chunk_key-chunk_key (trim_space f) i plain small

      listed : In (new_record o f (pos i) req) (
          map (to_record (trim_space f)) (
            keep
              (λ e. text_eq (parse_chunk_key e.chunk).0 (trim_space f))
              (s.chunks ++ entry ∷ [])))
      listed =
          subst
            (λ (r : ChunkRecord). In r (
              map (to_record (trim_space f)) (
                keep (λ e. text_eq (parse_chunk_key e.chunk).0 (trim_space f))
                  (s.chunks ++ entry ∷ []))))
            (ap (λ (r : Text × ℤ). record (to_record (trim_space f) entry) { chunk_index = r.1 })
              back)
            (In-map (to_record (trim_space f)) (
              keep-In (λ e. text_eq (parse_chunk_key e.chunk).0 (trim_space f))
                (In-append_right s.chunks (here refl))
                (ap (λ (r : Text × ℤ). text_eq r.0 (trim_space f)) back
                  ∙ text_eq_refl (trim_space f))))

-- `find_first` on a longer list.
abbrev pub or_else {ℓ} : {A : Type ℓ} → Option A → Option A → Option A
or_else none b = b
or_else (some a) b = some a

find_first-append :
    (test : ChunkRecordEntry → Bool) (xs ys : List ChunkRecordEntry)
    → find_first test (xs ++ ys) ≡ or_else (find_first test xs) (find_first test ys)
unfolding find_first
find_first-append test [] ys = refl
find_first-append test (x ∷ xs) ys = ground (arith, find_first-append test xs ys)

find_first-one :
    (test : ChunkRecordEntry → Bool) (e : ChunkRecordEntry)
    → find_first test (e ∷ []) ≡ (if test e then some e else none)
unfolding find_first
find_first-one test e = refl

module _ (o : Outside) (f : Text) (i : ℤ) (req : RegisterChunkRequest) (s : Memory) where
  -- The first registration of a chunk fixes the hash that reports are compared with: an accepted
  -- registration gives the chunk its hash if it had none, and changes no hash that a chunk has.
  pub expected_hash-set_chunk_hash :
      (k : Text)
      → (set_chunk_hash o f i req s).0 ≡ ok tt
      → expected_hash k (set_chunk_hash o f i req s).1
        ≡ hash_of (
            or_else
              (find_first (λ e. text_eq e.chunk k) s.chunks)
              (if text_eq (chunk_key (trim_space f) i) k then some (new_entry o f i req) else none))
  unfolding expected_hash
  expected_hash-set_chunk_hash k =
      set_chunk_hash_outcome o f i req s
        (λ r.
          r.0 ≡ ok tt
          → hash_of (find_first (λ e. text_eq e.chunk k) r.1.chunks)
            ≡ hash_of (
                or_else (find_first (λ e. text_eq e.chunk k) s.chunks) (
                  if text_eq (chunk_key (trim_space f) i) k
                  then some (new_entry o f i req)
                  else none)))
        (λ _ h. cc)
        λ _ _ _ _ _. ap hash_of (
          find_first-append (λ e. text_eq e.chunk k) s.chunks (new_entry o f i req ∷ [])
          ∙ ap (or_else (find_first (λ e. text_eq e.chunk k) s.chunks))
              (find_first-one (λ e. text_eq e.chunk k) (new_entry o f i req)))
