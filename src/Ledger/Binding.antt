-- ===== src/Ledger/Binding.antt =====
-- What the root of the ledger of internal/compliance/handlers/compliance/zkp_batch.go binds.
use aocs_compliance_svc.Common.{
  ℕ, ◌≡◌, ◌≢◌, refl, sym, ap, ◌∙◌, ◌⊎◌, inl, inr, List, [], ◌∷◌, ◌++◌, map, some, length,
  Bool-cases, arith,
}
use aocs_compliance_svc.Text.{codes, eq_text}
use aocs_compliance_svc.Text.Laws.{eq_text_refl, eq_text_sound}
use aocs_compliance_svc.Text.Hex.{IsBytes, hex_encode, hex_decode, hex_decode-hex_encode}
use aocs_compliance_svc.Ledger.Root.{EvidenceRecord, link, chain, get_ledger_root}

-- What a record adds to the chain: its hash followed by its id.
abbrev pub content : EvidenceRecord → List ℕ
content rec = rec.record_hash ++ rec.id

split-append :
    (xs xs' ys ys' : List ℕ)
    → length xs ≡ length xs'
    → xs ++ ys ≡ xs' ++ ys'
    → (xs ≡ xs') × (ys ≡ ys')
split-append [] [] ys ys' same h = (refl, h)
split-append [] (x ∷ xs') ys ys' same h = absurd (omega (arith, same))
split-append (x ∷ xs) [] ys ys' same h = absurd (omega (arith, same))
split-append (x ∷ xs) (x' ∷ xs') ys ys' same h =
    let heads : x ≡ x' = cc in
    let tails : xs ++ ys ≡ xs' ++ ys' = cc in
    let (front, back) = split-append xs xs' ys ys' (omega (arith, same)) tails in
    (cc (heads, front), back)

length-hex_encode :
    (bs bs' : List ℕ) → length bs ≡ length bs' → length (hex_encode bs) ≡ length (hex_encode bs')
unfolding hex_encode
length-hex_encode [] [] h = refl
length-hex_encode [] (b ∷ bs') h = absurd (omega (arith, h))
length-hex_encode (b ∷ bs) [] h = absurd (omega (arith, h))
length-hex_encode (b ∷ bs) (b' ∷ bs') h = omega (arith, length-hex_encode bs bs' (omega (arith, h)))

hex_encode_inj :
    (bs bs' : List ℕ) → IsBytes bs → IsBytes bs' → hex_encode bs ≡ hex_encode bs' → bs ≡ bs'
hex_encode_inj bs bs' h h' e =
    cc (ap hex_decode e, hex_decode-hex_encode bs h, hex_decode-hex_encode bs' h')

-- A hash function whose values are bytes, all of them as many.
pub record IsDigest (sha256 : List ℕ → List ℕ) : Type 0 where
  pub size : ℕ
  pub of_size : (t : List ℕ) → length (sha256 t) ≡ size
  pub of_bytes : (t : List ℕ) → IsBytes (sha256 t)

module _ (sha256 : List ℕ → List ℕ) (digest : IsDigest sha256) where
  open digest use {size, of_size, of_bytes}

  -- Some record of the one ledger and the record at its place in the other, each linked to the hash
  -- of the records before it, are hashed from different texts to the same hash.
  pub data Clash : List ℕ → List ℕ → List EvidenceRecord → List EvidenceRecord → Type 0 where
    at_link :
        {r r' : List ℕ} {x x' : EvidenceRecord} {xs xs' : List EvidenceRecord}
        → link sha256 r x ≢ link sha256 r' x'
        → sha256 (link sha256 r x) ≡ sha256 (link sha256 r' x')
        → Clash r r' (x ∷ xs) (x' ∷ xs')
    later :
        {r r' : List ℕ} {x x' : EvidenceRecord} {xs xs' : List EvidenceRecord}
        → Clash (sha256 (link sha256 r x)) (sha256 (link sha256 r' x')) xs xs'
        → Clash r r' (x ∷ xs) (x' ∷ xs')

  link_inj :
      (r r' : List ℕ) (x x' : EvidenceRecord)
      → length r ≡ length r'
      → IsBytes r
      → IsBytes r'
      → link sha256 r x ≡ link sha256 r' x'
      → (r ≡ r') × (content x ≡ content x')
  unfolding link
  link_inj r r' x x' same h h' e =
      let (front, back) =
        split-append (hex_encode r) (hex_encode r') (content x) (content x')
          (length-hex_encode r r' same) e in
      (hex_encode_inj r r' h h' front, back)

  chain-binds :
      (r r' : List ℕ) (xs ys : List EvidenceRecord)
      → length r ≡ length r'
      → IsBytes r
      → IsBytes r'
      → length xs ≡ length ys
      → chain sha256 r xs ≡ chain sha256 r' ys
      → ((r ≡ r') × (map content xs ≡ map content ys)) ⊎ Clash r r' xs ys
  unfolding chain
  chain-binds r r' [] [] same h h' count e = inl (e, refl)
  chain-binds r r' [] (y ∷ ys) same h h' count e = absurd (omega (arith, count))
  chain-binds r r' (x ∷ xs) [] same h h' count e = absurd (omega (arith, count))
  chain-binds r r' (x ∷ xs) (y ∷ ys) same h h' count e =
      let a = link sha256 r x in
      let b = link sha256 r' y in
      elim (chain-binds (sha256 a) (sha256 b) xs ys (of_size a ∙ sym (of_size b)) (of_bytes a)
        (of_bytes b) (omega (arith, count)) e) [
          | inr clash ↦ inr (Clash.later clash)
          | inl (hashes, rest) ↦ elim (Bool-cases (eq_text a b)) [
            | inr apart ↦ inr (Clash.at_link (λ eq. cc (eq, apart, eq_text_refl a)) hashes)
            | inl equal ↦
                let (front, back) = link_inj r r' x y same h h' (eq_text_sound a b equal) in
                inl (front, cc (back, rest))
          ]
        ]

  chain-IsBytes : (r : List ℕ) (xs : List EvidenceRecord) → IsBytes r → IsBytes (chain sha256 r xs)
  unfolding chain
  chain-IsBytes r [] h = h
  chain-IsBytes r (x ∷ xs) h =
      chain-IsBytes (sha256 (link sha256 r x)) xs (of_bytes (link sha256 r x))

  -- Two ledgers with the same root and the same number of records have the same records, up to the
  -- border between the hash and the id of each, in the same order, or else some record of the one
  -- and the record at its place in the other, each linked to the hash of the records before it, are
  -- hashed from two different texts to the same hash.
  pub get_ledger_root-binds :
      (xs ys : List EvidenceRecord)
      → length xs ≡ length ys
      → (get_ledger_root sha256 (some xs)).root_hash ≡ (get_ledger_root sha256 (some ys)).root_hash
      → (map content xs ≡ map content ys)
        ⊎ Clash (sha256 (codes "genesis")) (sha256 (codes "genesis")) xs ys
  unfolding get_ledger_root
  get_ledger_root-binds xs ys count e =
      let start = codes "genesis" in
      elim (chain-binds (sha256 start) (sha256 start) xs ys refl (of_bytes start) (of_bytes start)
        count
        (hex_encode_inj _ _ (chain-IsBytes _ xs (of_bytes start))
          (chain-IsBytes _ ys (of_bytes start)) e)) [
            | inl (same, contents) ↦ inl contents
            | inr clash ↦ inr clash
          ]
