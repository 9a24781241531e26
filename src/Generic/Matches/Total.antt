-- ===== src/Generic/Matches/Total.antt =====
-- Two or more byte sequences of a basic block have a regular expression.
use vxsig.Prelude.{ℕ, zero, suc, ◌≤◌, ◌≡◌, refl, List, [], ◌∷◌, some, All, length, get_elem?}
use vxsig.Subsequence.{Subsequence}
use vxsig.CommonSubsequence.{common_subsequence}
use vxsig.CommonSubsequence.Correct.{common_subsequence-Subsequence}
use vxsig.Regex.{regex_from_subsequence}
use vxsig.Regex.Total.{regex_from_subsequence-total}
use vxsig.Generic.{ByteWithExtra}
use vxsig.Generic.Matches.{byte_eq, insert_wildcard, copy_byte, block_regex}

All-of_indexed :
    (cs : List ByteWithExtra) (sequences : List (List ByteWithExtra))
    → ((k : ℕ) (t : List ByteWithExtra) → get_elem? sequences k ≡ some t → Subsequence cs t)
    → All (Subsequence cs) sequences
All-of_indexed cs [] h = tt
All-of_indexed cs (t ∷ sequences) h =
    (h zero t refl, All-of_indexed cs sequences (λ k u e. h (suc k) u e))

-- For the byte sequences of a basic block in two or more binaries, the two algorithms return: a
-- common subsequence, and the regular expression that is made from it.
pub block_regex-total :
    (sequences : List (List ByteWithExtra))
    → 2 ≤ length sequences
    → (cs : List ByteWithExtra) × (regex : List ByteWithExtra) × (common_subsequence sequences
        ≡ some cs)
      × All (Subsequence cs) sequences
      × (regex_from_subsequence copy_byte insert_wildcard cs sequences ≡ some regex)
      × (block_regex sequences ≡ some regex)
unfolding block_regex
block_regex-total sequences two =
    let (cs, e, occurs) = common_subsequence-Subsequence sequences two in
    let all = All-of_indexed cs sequences occurs in
    let (regex, e') = regex_from_subsequence-total copy_byte insert_wildcard cs sequences all in
    (cs, regex, e, all, e', rw e e')
