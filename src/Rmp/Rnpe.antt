-- ===== src/Rmp/Rnpe.antt =====
-- `create_rnpe2_request` of backend/rmp.py. The constant members of the result
-- (the schema's name and version, the limit of 512 blocks), the time and the heights given are left
-- out.
use minima_pi_net_os.Prelude.{
  ◌≡◌, str_eq, codes, Bool, false, Option, none, some, arith, if◌then◌else◌,
}
use minima_pi_net_os.Prelude.Int.{ℤ, pos, negsuc, ◌+ℤ◌, ◌-ℤ◌, ◌≤ℤ◌, ◌<ℤ◌, ltb_ℤ, max_ℤ, min_ℤ}
use minima_pi_net_os.Json.{Value, Fields, null, get, get_or}

abbrev pub max_rnpe_block_request : ℤ
max_rnpe_block_request = pos 512

pub record MissingBlocks : Type 0 where
  pub start_block : Option ℤ
  pub end_block : Option ℤ
  pub truncated : Bool
  pub local_root : Value

unfoldable pub create_rnpe2_request : ℤ → ℤ → Fields → MissingBlocks
create_rnpe2_request local_height peer_height local_proof =
    let start = max_ℤ (local_height +ℤ pos 1) (pos 0) in
    let last = max_ℤ peer_height local_height in
    let peer_is_ahead = ltb_ℤ local_height peer_height in
    let limited_end =
      if peer_is_ahead
      then min_ℤ last (start +ℤ max_rnpe_block_request -ℤ pos 1)
      else local_height in
    record {
      start_block = if peer_is_ahead then some start else none;
      end_block = if peer_is_ahead then some limited_end else none;
      truncated = ltb_ℤ limited_end peer_height;
      local_root = get_or (get (codes "root") local_proof) null;
    }

abbrev pub IsHeight : ℤ → Type 0
IsHeight h = negsuc 0 ≤ℤ h

module _ (local_height peer_height : ℤ) (local_proof : Fields) where
  abbrev request : MissingBlocks
  request = create_rnpe2_request local_height peer_height local_proof

  -- A node at height -1 (no block yet) or above asks a peer that is ahead for the blocks from the
  -- one behind its own up to the peer's height, or for the first 512 of them, and the request is
  -- marked as truncated exactly in the second case. No block is skipped, none is asked for twice.
  pub request-ahead :
      IsHeight local_height
      → local_height <ℤ peer_height
      → (request.start_block ≡ some (local_height +ℤ pos 1))
        × (request.end_block ≡ some (min_ℤ peer_height (local_height +ℤ pos 512)))
        × (request.truncated ≡ ltb_ℤ (local_height +ℤ pos 512) peer_height)
  unfolding create_rnpe2_request ◌+ℤ◌ ◌-ℤ◌
  request-ahead height ahead = (ground arith, ground arith, ground arith)

  -- A node that is not behind asks for nothing.
  pub request_level :
      peer_height ≤ℤ local_height
      → (request.start_block ≡ none) × (request.end_block ≡ none) × (request.truncated ≡ false)
  unfolding create_rnpe2_request
  request_level level = ground arith
