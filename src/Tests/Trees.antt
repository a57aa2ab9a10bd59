-- ===== src/Tests/Trees.antt =====
-- src/merkle.ts on a tree of three leaves.
use cool_sdk.Prelude.{◌≡◌, ◌⊎◌, refl, true, some, List, [], ◌∷◌, arith, get_elem?}
use cool_sdk.Codec.{Bytes, bytes_equal}
use cool_sdk.Merkle.{
  largest_power_of_two_below, merkle_root, node_hash, inclusion_proof, verify_inclusion, root_fuel,
  climb, root_from_inclusion_proof, parent, ascend, ascend_odd,
}
use cool_sdk.Merkle.Complete.{verify_inclusion-inclusion_proof}
use cool_sdk.Merkle.Sound.{Collision, verify_inclusion_sound}
use cool_sdk.Tests.Data.{checksum, length-checksum, zeros}

abbrev three_leaves : List Bytes
three_leaves = (1 ∷ zeros 31) ∷ (2 ∷ zeros 31) ∷ (3 ∷ zeros 31) ∷ []

abbrev path_to_second : List Bytes
path_to_second = (1 ∷ zeros 31) ∷ (3 ∷ zeros 31) ∷ []

second_accepted :
    verify_inclusion checksum (2 ∷ zeros 31) 1 3 path_to_second (merkle_root checksum three_leaves)
    ≡ true
unfolding verify_inclusion root_from_inclusion_proof climb parent ascend ascend_odd merkle_root
    root_fuel node_hash bytes_equal largest_power_of_two_below
second_accepted = refl

verify_inclusion_sound_example :
    Collision checksum
    ⊎ ((get_elem? three_leaves 1 ≡ some (2 ∷ zeros 31))
        × (inclusion_proof checksum three_leaves 1 ≡ some path_to_second))
verify_inclusion_sound_example =
    verify_inclusion_sound checksum length-checksum three_leaves 1 (2 ∷ zeros 31) path_to_second
      (omega arith) (refl, (refl, (refl, tt))) refl second_accepted

verify_inclusion-inclusion_proof_example :
    (path : List Bytes) × (inclusion_proof checksum three_leaves 2 ≡ some path)
    × (verify_inclusion checksum (3 ∷ zeros 31) 2 3 path (merkle_root checksum three_leaves) ≡ true)
verify_inclusion-inclusion_proof_example =
    verify_inclusion-inclusion_proof checksum three_leaves 2 (3 ∷ zeros 31) (omega arith) refl
