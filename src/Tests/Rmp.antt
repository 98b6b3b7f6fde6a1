-- ===== src/Tests/Rmp.antt =====
-- backend/rmp.py on a small state, with a toy hash in place of SHA-256.
use minima_pi_net_os.Prelude.{
  nat_eq, str_eq, ℕ, ◌+◌, ◌*◌, ◌/◌, ◌%◌, ◌≡◌, ◌⊎◌, refl, Str, str_beq, codes, Bool, true, false,
  Option, some, List, [], ◌∷◌, ◌++◌, length, ok, beq_iff, arith,
}
use minima_pi_net_os.Prelude.Int.{pos}
use minima_pi_net_os.Json.{
  Value, Items, Fields, bool, int, str, arr, obj, nil, cons, end, field, get, canonical_json, join,
  join_members, escape_all, int_text,
}
use minima_pi_net_os.Json.Sort.{sort_keys}
use minima_pi_net_os.Json.Number.{decimal}
use minima_pi_net_os.Dict.Distinct.{mem}
use minima_pi_net_os.Rmp.Flatten.{flatten_state, join_leaves, leaf_hashes}
use minima_pi_net_os.Rmp.Levels.{build_levels, top_level, root_of, top-build_levels}
use minima_pi_net_os.Rmp.Fold.{proof_path}
use minima_pi_net_os.Rmp.Verify.{
  valid, verify_rmp_proof, verify_fields, expected_root, strip_prefix, verify_list, verify_targets,
  verify_target, verify_named, verify_path, fold_proof, fold_siblings, fold_sibling, combine_value,
  position_of,
}
use minima_pi_net_os.Rmp.Build.{build_rmp_proof, build_targets, wanted}
use minima_pi_net_os.Rmp.Complete.{verdict, selected, verify-build}
use minima_pi_net_os.Rmp.Honest.{is_colon_free, Collision}
use minima_pi_net_os.Rmp.Sound.{AllProven, verify_sound}
use minima_pi_net_os.Rmp.Consensus.{Consensus, verify_rnpe2_consensus, consensus_sound}
use minima_pi_net_os.Rmp.Ambiguous.{one_member, state_root, dotted_key-root}

checksum : ℕ → Str → ℕ
checksum k [] = k
checksum k (c ∷ s) = checksum ((k * 31 + c) % 676) s

-- Two letters.
toy_hash : Str → Str
unfolding checksum
toy_hash s = (b'a' + checksum 7 s / 26) ∷ (b'a' + checksum 7 s % 26) ∷ []

toy_hash-is_colon_free : (s : Str) → is_colon_free (toy_hash s) ≡ true
unfolding toy_hash is_colon_free
toy_hash-is_colon_free s = ground arith

abbrev state : Value
state = obj (
    field (codes "peers") (arr (cons (str (codes "b")) (cons (str (codes "a")) nil)))
      (field (codes "height") (int (pos 41)) (field (codes "up") (bool true) end)))

abbrev requested : List Str
requested = codes "peers[1]" ∷ codes "height" ∷ codes "gone" ∷ []

canonical_state : canonical_json state ≡ codes "{\"height\":41,\"peers\":[\"b\",\"a\"],\"up\":true}"
unfolding canonical_json join join_members escape_all int_text sort_keys
canonical_state = refl

program : Unit {0}
unfolding toy_hash flatten_state join_leaves sort_keys canonical_json join join_members escape_all
    int_text decimal build_levels root_of proof_path build_rmp_proof build_targets mem str_beq get
    verify_rmp_proof verify_fields expected_root strip_prefix verify_list verify_targets
    verify_target verify_named verify_path fold_proof fold_siblings fold_sibling combine_value
    position_of
program = tt

built_is_valid :
    verify_rmp_proof toy_hash (build_rmp_proof toy_hash state requested 0)
    ≡ valid (codes "height" ∷ codes "peers[1]" ∷ [])
unfolding program
built_is_valid = refl

abbrev fields_of : Value → Fields
fields_of (obj fs) = fs
fields_of _ = end

abbrev items_of : Option Value → Items
items_of (some (arr xs)) = xs
items_of _ = nil

abbrev root_text : Str
root_text =
    codes "sha256:"
    ++ root_of (build_levels toy_hash (leaf_hashes toy_hash (flatten_state state [])))

built : Fields
built = fields_of (build_rmp_proof toy_hash state requested 0)

built-accepted :
    verify_rmp_proof toy_hash (obj built) ≡ valid (codes "height" ∷ codes "peers[1]" ∷ [])
unfolding program built
built-accepted = refl

built-root : get (codes "root") built ≡ some (str root_text)
unfolding program built
built-root = refl

built-targets : get (codes "targets") built ≡ some (arr (items_of (get (codes "targets") built)))
unfolding program built
built-targets = refl

verify-build_example :
    verify_rmp_proof toy_hash (build_rmp_proof toy_hash state requested 0)
    ≡ verdict (selected (wanted requested (flatten_state state [])) (flatten_state state []))
verify-build_example = verify-build toy_hash state requested 0

verify_sound_example :
    Collision toy_hash
    ⊎ AllProven
        (flatten_state state [])
        (items_of (get (codes "targets") built))
        (codes "height" ∷ codes "peers[1]" ∷ [])
verify_sound_example =
    verify_sound toy_hash toy_hash-is_colon_free state built
      (items_of (get (codes "targets") built)) (codes "height" ∷ codes "peers[1]" ∷ [])
      built-accepted built-root built-targets

top-build_levels_example :
    length (top_level (build_levels toy_hash (codes "a" ∷ codes "b" ∷ codes "c" ∷ []))) ≡ 1
top-build_levels_example = top-build_levels toy_hash (codes "a" ∷ codes "b" ∷ codes "c" ∷ [])

-- Equality of texts, and of nothing else.
abbrev same_text : Value → Value → Bool
same_text (str s) (str t) = str_beq s t
same_text _ _ = false

same_text-eq : (s t : Str) → same_text (str s) (str t) ≡ true → s ≡ t
same_text-eq s t h = (beq_iff s t).0 h

abbrev agreed : Consensus
agreed = record {
  local_valid = true;
  peer_valid = true;
  local_root = str root_text;
  peer_root = str root_text;
  consensus_match = true;
  reason = "roots match";
}

built-agreed : verify_rnpe2_consensus toy_hash same_text built built ≡ ok agreed
unfolding program built verify_rnpe2_consensus
built-agreed = refl

consensus_sound_example :
    Collision toy_hash
    ⊎ ((targets : Items) × (paths : List Str) × (get (codes "root") built ≡ some (str root_text))
        × (get (codes "targets") built ≡ some (arr targets))
        × AllProven (flatten_state state []) targets paths)
consensus_sound_example =
    consensus_sound toy_hash same_text same_text-eq toy_hash-is_colon_free state built built agreed
      built-root built-agreed refl

dotted_key-root_example :
    state_root toy_hash (one_member (codes "a" ++ (codes "." ++ codes "b")) (bool true))
    ≡ state_root toy_hash (one_member (codes "a") (one_member (codes "b") (bool true)))
dotted_key-root_example = dotted_key-root toy_hash b'a' [] (codes "b") (bool true)
