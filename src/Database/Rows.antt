-- ===== src/Database/Rows.antt =====
-- What every row of the tables has, and what keeps it.
use muninn.Prelude.{◌≡◌, refl, Bool, true, false, not, ◌⊎◌, inl, inr, ap, arith}
use muninn.Prelude.Int.{ℤ, pos, negsuc, pos_part, neg_part, ◌<ℤ◌, ◌+ℤ◌, +ℤ_parts, eq_of_parts}
use muninn.Text.{Text, is_empty}
use muninn.Model.{RegisterRequest, RegisterChunkRequest, login_key}
use muninn.Outside.{Outside}
use muninn.Hash.{valid_hash_format}
use muninn.Memory.Chunks.{bad_index, delta_of}
use muninn.Database.{PeerRow, ChunkRow, Server}
use muninn.Database.Peers.{new_row, renewed_row, beating_row, refreshed_row}
use muninn.Database.Chunks.{column, chunk_row}
use muninn.Database.Reports.{count_row, confirm_row, read_row}
use muninn.Database.Outcome.Chunks.{refuses_chunk}

-- The peer has an id, the key of its login and its signature key, a positive time to live, and a
-- score of 1000 that has moved with its counters.
pub record IsPeerRow (row : PeerRow) : Type 0 where
  pub named : is_empty row.id ≡ false
  pub keyed : row.key ≡ login_key row.login row.signature_key
  pub ttl : pos 0 <ℤ row.ttl_seconds
  pub balanced : row.quality_score +ℤ row.quality_invalid ≡ pos 1000 +ℤ row.quality_valid

abbrev IsFlag : ℤ → Type 0
IsFlag z = (z ≡ pos 0) ⊎ (z ≡ pos 1)

-- The chunk has a file, an index, a well-formed hash, a sender and a holder, and a positive time
-- to live; its recipient may be empty.
pub record IsChunkRow (row : ChunkRow) : Type 0 where
  pub file : is_empty row.file_id ≡ false
  pub index : bad_index row.chunk_index ≡ false
  pub hash : valid_hash_format row.expected_hash ≡ true
  pub sender : is_empty row.sender_id ≡ false
  pub holder : is_empty row.holder_peer_id ≡ false
  pub flags : IsFlag row.persist × IsFlag row.confirmed × IsFlag row.readed
  pub ttl : pos 0 <ℤ row.ttl

pub new_row-IsPeerRow :
    (o : Outside) (req : RegisterRequest) (id : Text)
    → is_empty id ≡ false
    → IsPeerRow (new_row o req id)
unfolding ◌+ℤ◌
new_row-IsPeerRow o req id h = record {
  named = h;
  keyed = refl;
  ttl = ground arith;
  balanced = refl;
}

pub renewed_row-IsPeerRow :
    (o : Outside) (req : RegisterRequest) (row : PeerRow)
    → IsPeerRow row
    → IsPeerRow (renewed_row o req row)
renewed_row-IsPeerRow o req row h = record {
  named = h.named;
  keyed = h.keyed;
  ttl = ground arith;
  balanced = h.balanced;
}

pub beating_row-IsPeerRow :
    (o : Outside) (ttl_seconds : ℤ) (row : PeerRow)
    → IsPeerRow row
    → IsPeerRow (beating_row o ttl_seconds row)
beating_row-IsPeerRow o ttl_seconds row h = record {
  named = h.named;
  keyed = h.keyed;
  ttl = (let positive = h.ttl in ground arith);
  balanced = h.balanced;
}

pub refreshed_row-IsPeerRow :
    (o : Outside) (row : PeerRow) → IsPeerRow row → IsPeerRow (refreshed_row o row)
refreshed_row-IsPeerRow o row h = record {
  named = h.named;
  keyed = h.keyed;
  ttl = h.ttl;
  balanced = h.balanced;
}

-- Moving both sides of a sum by one keeps it.
balance_parts :
    (score i v d e f : ℤ)
    → score +ℤ i ≡ pos 1000 +ℤ v
    → d +ℤ e ≡ f
    → (score +ℤ d) +ℤ (i +ℤ e) ≡ pos 1000 +ℤ (v +ℤ f)
balance_parts score i v d e f h g =
    let a = ap pos_part h in
    let b = ap neg_part h in
    let x = ap pos_part g in
    let y = ap neg_part g in
    eq_of_parts _ _ (
      omega (
        arith,
        +ℤ_parts score i,
        +ℤ_parts (pos 1000) v,
        +ℤ_parts d e,
        +ℤ_parts score d,
        +ℤ_parts i e,
        +ℤ_parts v f,
        +ℤ_parts (score +ℤ d) (i +ℤ e),
        +ℤ_parts (pos 1000) (v +ℤ f),
      ))

count_balance :
    (valid : Bool) (score v i : ℤ)
    → score +ℤ i ≡ pos 1000 +ℤ v
    → (score +ℤ delta_of valid) +ℤ (i +ℤ column (not valid)) ≡ pos 1000 +ℤ (v +ℤ column valid)
count_balance true score v i h =
    balance_parts score i v (pos 1) (pos 0) (pos 1) h (unfold ◌+ℤ◌ in refl)
count_balance false score v i h =
    balance_parts score i v (negsuc 0) (pos 1) (pos 0) h (unfold ◌+ℤ◌ in refl)

pub count_row-IsPeerRow :
    (valid : Bool) (row : PeerRow) → IsPeerRow row → IsPeerRow (count_row valid row)
count_row-IsPeerRow valid row h = record {
  named = h.named;
  keyed = h.keyed;
  ttl = h.ttl;
  balanced = count_balance valid _ _ _ h.balanced;
}

column-IsFlag : (b : Bool) → IsFlag (column b)
column-IsFlag true = inr refl
column-IsFlag false = inl refl

pub chunk_row-IsChunkRow :
    (w : Server) (file_id : Text) (chunk_index : ℤ) (req : RegisterChunkRequest)
    → refuses_chunk w file_id chunk_index req ≡ false
    → IsChunkRow (chunk_row w.outside file_id chunk_index req)
chunk_row-IsChunkRow w file_id chunk_index req h = record {
  file = ground arith;
  index = ground arith;
  hash = ground arith;
  sender = ground arith;
  holder = ground arith;
  flags = (column-IsFlag req.persist, inl refl, inl refl);
  ttl = ground arith;
}

pub confirm_row-IsChunkRow :
    (clock : ℤ) (row : ChunkRow) → IsChunkRow row → IsChunkRow (confirm_row clock row)
confirm_row-IsChunkRow clock row h = record {
  file = h.file;
  index = h.index;
  hash = h.hash;
  sender = h.sender;
  holder = h.holder;
  flags = (h.flags.0, inr refl, h.flags.2);
  ttl = h.ttl;
}

pub read_row-IsChunkRow :
    (clock : ℤ) (row : ChunkRow) → IsChunkRow row → IsChunkRow (read_row clock row)
read_row-IsChunkRow clock row h = record {
  file = h.file;
  index = h.index;
  hash = h.hash;
  sender = h.sender;
  holder = h.holder;
  flags = (h.flags.0, h.flags.1, inr refl);
  ttl = h.ttl;
}
