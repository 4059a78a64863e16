-- ===== src/Ledger/Tests.antt =====
-- The theorem on the root of the ledger with a hash of one byte.
use aocs_compliance_svc.Common.{ℕ, ◌≡◌, ◌⊎◌, refl, List, [], ◌∷◌, map, ◌%◌, ◌+◌, arith}
use aocs_compliance_svc.Text.{codes}
use aocs_compliance_svc.Ledger.Root.{EvidenceRecord, link, chain, get_ledger_root}
use aocs_compliance_svc.Ledger.Binding.{IsDigest, content, Clash, get_ledger_root-binds}

-- The sum of the bytes, modulo 256.
abbrev total : List ℕ → ℕ
total [] = 0
total (b ∷ bs) = b + total bs

abbrev checksum : List ℕ → List ℕ
checksum bytes = total bytes % 256 ∷ []

checksum-IsDigest : IsDigest checksum
checksum-IsDigest = record { size = 1; of_size = λ t. refl; of_bytes = λ t. (omega arith, tt) }

abbrev one : List EvidenceRecord
one = record { id = codes "c"; record_hash = codes "ab" } ∷ []

abbrev other : List EvidenceRecord
other = record { id = codes "bc"; record_hash = codes "a" } ∷ []

get_ledger_root-binds_example :
    (map content one ≡ map content other)
    ⊎ Clash checksum checksum-IsDigest
        (checksum (codes "genesis"))
        (checksum (codes "genesis"))
        one
        other
unfolding get_ledger_root chain link
get_ledger_root-binds_example = get_ledger_root-binds checksum checksum-IsDigest one other refl refl
