-- ===== src/Httpx/Inbound/Ids.antt =====
-- `requestID` of gateway/internal/httpx/inbound.go: what an id looks like.
use openussd.Prelude.{
  ℕ, ◌-◌, ◌≤◌, ◌≡◌, ◌⊎◌, inl, inr, ◌||◌, [], ◌∷◌, ltb, All, arith, Bool-cases, or-eq-false, length,
}
use openussd.Strings.{Text, is_empty, rune_len, cut_bytes}
use openussd.Httpx.Inbound.{printable, sanitise_id, request_id, max_request_id_len}

abbrev pub IsPrintable : ℕ → Type 0
IsPrintable c = (0x20 ≤ c) × (c ≤ 0x7e)

printable-All : (s : Text) → All IsPrintable (printable s)
unfolding printable
printable-All [] = tt
printable-All (c ∷ s) = elim (Bool-cases (ltb c 0x20 || ltb 0x7e c)) [
  | inl bad ↦ rw bad (printable-All s)
  | inr good ↦
      let (low, high) = or-eq-false (ltb c 0x20) (ltb 0x7e c) good in
      rw good ((ground (arith, low), ground (arith, high)), printable-All s)
]

length-cut_bytes : (room : ℕ) (s : Text) → length (cut_bytes room s) ≤ room
unfolding cut_bytes
length-cut_bytes room [] = omega arith
length-cut_bytes room (c ∷ s) = elim (Bool-cases (ltb room (rune_len c))) [
  | inl full ↦ rw full (omega arith)
  | inr more ↦
      let some_room : 1 ≤ rune_len c = ground arith in
      let left : rune_len c ≤ room = ground (arith, more) in
      rw more (omega (arith, length-cut_bytes (room - rune_len c) s, some_room, left))
]

length-printable : (s : Text) → length (printable s) ≤ length s
unfolding printable
length-printable [] = omega arith
length-printable (c ∷ s) = elim (Bool-cases (ltb c 0x20 || ltb 0x7e c)) [
  | inl bad ↦ rw bad (omega (arith, length-printable s))
  | inr good ↦ rw good (omega (arith, length-printable s))
]

-- A request id is the one that was drawn, or at most 64 printable ASCII characters, whatever the
-- caller sent.
pub request_id-IsPrintable :
    (given drawn : Text)
    → (request_id given drawn ≡ drawn)
      ⊎ (All IsPrintable (request_id given drawn)
          × (length (request_id given drawn) ≤ max_request_id_len))
unfolding request_id
request_id-IsPrintable given drawn = elim (Bool-cases (is_empty given)) [
  | inl nothing ↦ inl (rw nothing)
  | inr something ↦ elim (Bool-cases (is_empty (sanitise_id given))) [
    | inl gone ↦ inl (rw (something, gone))
    | inr left ↦ inr (
        rw (something, left)
          (unfold sanitise_id in
            (
              printable-All (cut_bytes max_request_id_len given),
              omega (
                arith,
                length-printable (cut_bytes max_request_id_len given),
                length-cut_bytes max_request_id_len given,
              ),
            )))
  ]
]
