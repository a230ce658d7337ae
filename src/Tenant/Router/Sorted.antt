-- ===== src/Tenant/Router/Sorted.antt =====
-- The order of a shortcode's tenants after the second loop of `NewRouter`.
use openussd.Prelude.{
  ℕ, ◌≤◌, ◌≡◌, ◌≢◌, refl, ◌⊎◌, inl, inr, List, [], ◌∷◌, ltb, ◌==◌, length, All, In, arith,
  Bool-cases,
}
use openussd.Tenant.{Tenant}
use openussd.Tenant.Router.{roots, insert_sorted, sort_stable}

-- No later prefix is longer.
abbrev pub IsDescending : List Tenant → Type 0
IsDescending [] = Unit
IsDescending (t ∷ ts) = All (λ (u : Tenant). length u.prefix ≤ length t.prefix) ts × IsDescending ts

In-insert_sorted : (u t : Tenant) (us : List Tenant) → In u (insert_sorted t us) → (u ≡ t) ⊎ In u us
unfolding insert_sorted
In-insert_sorted u t [] h = h
In-insert_sorted u t (v ∷ us) h = elim (Bool-cases (ltb (length t.prefix) (length v.prefix))) [
  | inl longer ↦ elim (rw longer at h) [
    | inl e ↦ inr (inl e)
    | inr k ↦ elim (In-insert_sorted u t us k) [ inl e ↦ inl e | inr m ↦ inr (inr m) ]
  ]
  | inr short ↦ rw short at h
]

insert_sorted-In : (u t : Tenant) (us : List Tenant) → (u ≡ t) ⊎ In u us → In u (insert_sorted t us)
unfolding insert_sorted
insert_sorted-In u t [] h = h
insert_sorted-In u t (v ∷ us) h = elim (Bool-cases (ltb (length t.prefix) (length v.prefix))) [
  | inl longer ↦ rw longer (elim h [
    | inl e ↦ inr (insert_sorted-In u t us (inl e))
    | inr k ↦ elim k [ inl e ↦ inl e | inr m ↦ inr (insert_sorted-In u t us (inr m)) ]
  ])
  | inr short ↦ rw short h
]

pub In-sort_stable : (u : Tenant) (ts : List Tenant) → In u (sort_stable ts) → In u ts
unfolding sort_stable
In-sort_stable u [] h = h
In-sort_stable u (t ∷ ts) h = elim (In-insert_sorted u t (sort_stable ts) h) [
  | inl e ↦ inl e
  | inr k ↦ inr (In-sort_stable u ts k)
]

pub sort_stable-In : (u : Tenant) (ts : List Tenant) → In u ts → In u (sort_stable ts)
unfolding sort_stable
sort_stable-In u [] h = h
sort_stable-In u (t ∷ ts) (inl e) = insert_sorted-In u t (sort_stable ts) (inl e)
sort_stable-In u (t ∷ ts) (inr h) =
    insert_sorted-In u t (sort_stable ts) (inr (sort_stable-In u ts h))

module _ (P : Tenant → Type 0) where
  insert_sorted-All : (t : Tenant) (us : List Tenant) → P t → All P us → All P (insert_sorted t us)
  unfolding insert_sorted
  insert_sorted-All t [] p h = (p, tt)
  insert_sorted-All t (v ∷ us) p h = elim (Bool-cases (ltb (length t.prefix) (length v.prefix))) [
    | inl longer ↦ rw longer (h.0, insert_sorted-All t us p h.1)
    | inr short ↦ rw short (p, h)
  ]

All-le_trans :
    (m n : ℕ) (us : List Tenant)
    → m ≤ n
    → All (λ (u : Tenant). length u.prefix ≤ m) us
    → All (λ (u : Tenant). length u.prefix ≤ n) us
All-le_trans m n [] h a = tt
All-le_trans m n (u ∷ us) h a = (omega (arith, a.0), All-le_trans m n us h a.1)

insert_sorted-IsDescending :
    (t : Tenant) (us : List Tenant) → IsDescending us → IsDescending (insert_sorted t us)
unfolding insert_sorted
insert_sorted-IsDescending t [] h = (tt, tt)
insert_sorted-IsDescending t (v ∷ us) h =
    elim (Bool-cases (ltb (length t.prefix) (length v.prefix))) [
      | inl longer ↦ rw longer (
        insert_sorted-All (λ (u : Tenant). length u.prefix ≤ length v.prefix) t us (ground arith)
            h.0,
        insert_sorted-IsDescending t us h.1,
      )
      | inr short ↦
          let le : length v.prefix ≤ length t.prefix = ground arith in
          rw short ((le, All-le_trans (length v.prefix) (length t.prefix) us le h.0), h)
    ]

pub sort_stable-IsDescending : (ts : List Tenant) → IsDescending (sort_stable ts)
unfolding sort_stable
sort_stable-IsDescending [] = tt
sort_stable-IsDescending (t ∷ ts) =
    insert_sorted-IsDescending t (sort_stable ts) (sort_stable-IsDescending ts)

length-zero {ℓ} : {A : Type ℓ} (xs : List A) → length xs ≡ 0 → xs ≡ []
length-zero [] h = refl
length-zero (x ∷ xs) h = absurd (omega arith)

pub some_root : (ts : List Tenant) → roots ts ≢ 0 → (t : Tenant) × In t ts × (t.prefix ≡ [])
unfolding roots
some_root [] h = absurd (h refl)
some_root (t ∷ ts) h = elim (Bool-cases (length t.prefix == 0)) [
  | inl root ↦ (t, inl refl, length-zero t.prefix (ground arith))
  | inr deep ↦ let (u, m, e) = some_root ts (ground arith) in (u, inr m, e)
]
