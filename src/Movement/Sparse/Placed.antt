-- ===== src/Movement/Sparse/Placed.antt =====
-- Where the sparse placement puts a client.
use native.Mathlib.Nat.{mod-lt, zero-lt-suc}
use cks_loadtest.Base.{ℕ, ◌*◌, ◌%◌, ◌≡◌, refl, sym, true, ap, ◌∙◌, arith}
use cks_loadtest.Base.Int.{ℤ, pos, pos_part, ◌-ℤ◌, ◌≤ℤ◌, +ℤ_parts, -ℤ_parts}
use cks_loadtest.Platform.{Floats}
use cks_loadtest.Config.{Config, is_sparse}
use cks_loadtest.Control.{ClientCredentials}
use cks_loadtest.Worker.Client.{Sim}
use cks_loadtest.Movement.{Random, own_chunk}
use cks_loadtest.Movement.Sparse.{
  quot, group_size, sparse_span, IsInRange, sparse_chunk_for, place_sparse,
}
use cks_loadtest.Movement.Inside.{own_chunk-put}

module _ {fl : Floats} (cfg : Config fl) where
  centred-IsInRange :
      (h : ℕ)
      → pos 0 ≤ℤ cfg.sparse_range_chunks
      → IsInRange cfg (pos (h % sparse_span cfg) -ℤ cfg.sparse_range_chunks)
  centred-IsInRange h positive =
      grind
        (arith, mod-lt h (zero-lt-suc (2 * pos_part cfg.sparse_range_chunks)), +ℤ_parts, -ℤ_parts)

  chunk-IsInRange :
      (index : ℤ)
      → pos 0 ≤ℤ cfg.sparse_range_chunks
      → IsInRange cfg (sparse_chunk_for cfg index).0 × IsInRange cfg (sparse_chunk_for cfg index).1
  unfolding sparse_chunk_for
  chunk-IsInRange index positive = (centred-IsInRange _ positive, centred-IsInRange _ positive)

  own_chunk-place :
      (rnd : Random fl) (creds : ClientCredentials) (g : rnd.Gen) (s : Sim fl)
      → own_chunk (place_sparse cfg rnd creds g s).1 ≡ sparse_chunk_for cfg creds.index
  unfolding place_sparse
  own_chunk-place rnd creds g s = own_chunk-put cfg _ _

  chunk_for-group :
      (i j : ℤ)
      → quot i (group_size cfg) ≡ quot j (group_size cfg)
      → sparse_chunk_for cfg i ≡ sparse_chunk_for cfg j
  unfolding sparse_chunk_for
  chunk_for-group i j e = simp e refl

-- In the sparse placement every client gets a chunk that is at most the range away from the origin on
-- either axis, and two clients whose indices fall into the same group get the same chunk, on whatever
-- generators they are and whatever the draws are.
pub place_sparse-IsShared :
    (fl : Floats) (cfg : Config fl) (rnd : Random fl) (x y : ClientCredentials) (g h : rnd.Gen)
    (s t : Sim fl)
    → is_sparse cfg ≡ true
    → quot x.index (group_size cfg) ≡ quot y.index (group_size cfg)
    → IsInRange cfg (place_sparse cfg rnd x g s).1.sparse_c1
      × IsInRange cfg (place_sparse cfg rnd x g s).1.sparse_c2
      × (own_chunk (place_sparse cfg rnd x g s).1 ≡ own_chunk (place_sparse cfg rnd y h t).1)
unfolding is_sparse
place_sparse-IsShared fl cfg rnd x y g h s t sparse group =
    let placed = own_chunk-place cfg rnd x g s in
    let (in1, in2) = chunk-IsInRange cfg x.index (ground arith) in
    (
      rw (ap (λ c. c.0) placed) in1,
      rw (ap (λ c. c.1) placed) in2,
      placed ∙ chunk_for-group cfg x.index y.index group ∙ sym (own_chunk-place cfg rnd y h t),
    )
