-- ===== src/Shamir/Shares.antt =====
-- The shares that `split` returns, and that `combine` undoes it.
use nwep_py.Prelude.{
  ℕ, zero, suc, ◌+◌, ◌-◌, ◌*◌, ◌≤◌, ◌<◌, ◌==◌, ==_iff, false, not, any, List, [], ◌∷◌, ◌++◌, All,
  length, take, drop, length-take, length-drop, ◌≡◌, refl, sym, ap, ◌∙◌, arith, pos,
}
use nwep_py.Errors.{ok}
use nwep_py.Sys.{Bytes, Abi, shamir, ShamirCall}
use nwep_py.Sys.Exec.{World}
use nwep_py.Shamir.{cut, join, split, combine}

length-cut : (shares start len : ℕ) (blob : Bytes) → length (cut shares start len blob) ≡ shares
unfolding cut
length-cut zero start len blob = refl
length-cut (suc shares) start len blob = omega (arith, length-cut shares (start + len) len blob)

suc_mul : (n m : ℕ) → suc n * m ≡ m + n * m
suc_mul n m = omega arith

the_zero : (n : ℕ) → n ≡ 0 + n
the_zero n = omega arith

the_suc : (m n : ℕ) → suc (m + n) ≡ suc m + n
the_suc m n = omega arith

cut_sizes :
    (shares start len : ℕ) (blob : Bytes)
    → start + shares * len ≤ length blob
    → All (λ s. length s ≡ len) (cut shares start len blob)
unfolding cut
cut_sizes zero start len blob h = tt
cut_sizes (suc shares) start len blob h = (
  omega (
    arith,
    h,
    suc_mul shares len,
    length-take (start + len - start) (drop start blob),
    length-drop start blob,
  ),
  cut_sizes shares (start + len) len blob (omega (arith, h, suc_mul shares len)),
)

module _ {ℓ} {A : Type ℓ} where
  take_nil : (n : ℕ) → take {A = A} n [] ≡ []
  take_nil zero = refl
  take_nil (suc n) = refl

  drop_nil : (n : ℕ) → drop {A = A} n [] ≡ []
  drop_nil zero = refl
  drop_nil (suc n) = refl

  drop-drop : (m n : ℕ) (xs : List A) → drop n (drop m xs) ≡ drop (m + n) xs
  drop-drop zero n xs = ap (λ k. drop k xs) (the_zero n)
  drop-drop (suc m) n [] = drop_nil n ∙ sym (drop_nil (suc m + n))
  drop-drop (suc m) n (x ∷ xs) = drop-drop m n xs ∙ ap (λ k. drop k (x ∷ xs)) (the_suc m n)

  take-add : (m n : ℕ) (xs : List A) → take m xs ++ take n (drop m xs) ≡ take (m + n) xs
  take-add zero n xs = ap (λ k. take k xs) (the_zero n)
  take-add (suc m) n [] = take_nil n ∙ sym (take_nil (suc m + n))
  take-add (suc m) n (x ∷ xs) =
      ap (λ t. x ∷ t) (take-add m n xs) ∙ ap (λ k. take k (x ∷ xs)) (the_suc m n)

join-cut :
    (shares start len : ℕ) (blob : Bytes)
    → join (cut shares start len blob) ≡ take (shares * len) (drop start blob)
unfolding cut join
join-cut zero start len blob =
    let p : 0 ≡ 0 * len = omega arith in ap (λ k. take k (drop start blob)) p
join-cut (suc shares) start len blob =
    let p : start + len - start ≡ len = omega arith in
    ap (λ t. take (start + len - start) (drop start blob) ++ t)
      (join-cut shares (start + len) len blob
        ∙ ap (take (shares * len)) (sym (drop-drop start len blob)))
    ∙ ap (λ k. take k (drop start blob) ++ take (shares * len) (drop len (drop start blob))) p
    ∙ take-add len (shares * len) (drop start blob)
    ∙ ap (λ k. take k (drop start blob)) (sym (suc_mul shares len))

take_all : (n : ℕ) (xs : Bytes) → length xs ≡ n → take n xs ≡ xs
take_all zero [] h = refl
take_all (suc n) [] h = refl
take_all zero (x ∷ xs) h = ground (arith, h)
take_all (suc n) (x ∷ xs) h = ap (λ t. x ∷ t) (take_all n xs (omega (arith, h)))

-- When C splits and fills the room it was given, `split` returns as many shares as asked for, each
-- one byte longer than the secret, which joined are what C wrote.
pub split_shares :
    (abi : Abi) (S : Type 0) (b : ℕ) (secret : Bytes) (threshold shares : ℕ) (w : World S) {n : ℕ}
    {out : Bytes}
    → abi w.calls (
        shamir
          (ShamirCall.split (b ∷ secret) threshold shares (shares * (1 + length (b ∷ secret)))))
      ≡ (pos n, out, shares * (1 + length (b ∷ secret)))
    → length out ≡ shares * (1 + length (b ∷ secret))
    → (list : List Bytes) × ((split abi (b ∷ secret) threshold shares w).0 ≡ ok list)
      × (length list ≡ shares)
      × All (λ s. length s ≡ 1 + length (b ∷ secret)) list
      × (join list ≡ out)
unfolding split
split_shares abi S b secret threshold shares w {n} {out} a l =
    let len = 1 + length (b ∷ secret) in
    let e = take_all (shares * len) out l in
    (
      cut shares 0 len out,
      ground (arith, a, e),
      length-cut shares 0 len out,
      cut_sizes shares 0 len out (omega (arith, l)),
      join-cut shares 0 len out ∙ e,
    )

lengths_agree :
    (len : ℕ) (shares : List Bytes)
    → All (λ s. length s ≡ len) shares
    → any (λ t. not (length t == len)) shares ≡ false
lengths_agree len [] h = refl
lengths_agree len (s ∷ shares) h =
    ground (arith, h.0, lengths_agree len shares h.1, ==_iff (length s) len)

-- `combine` of shares of one length hands C their bytes in order, their number and their length, and
-- returns the bytes that C stored.
pub combine_joined :
    (abi : Abi) (S : Type 0) (s : Bytes) (shares : List Bytes) (w : World S) {n : ℕ} {out : Bytes}
    {outlen : ℕ}
    → All (λ t. length t ≡ length s) shares
    → abi w.calls (shamir (ShamirCall.combine (join (s ∷ shares)) (length (s ∷ shares)) (length s)))
      ≡ (pos n, out, outlen)
    → (combine abi (s ∷ shares) w).0 ≡ ok (take outlen out)
unfolding combine
combine_joined abi S s shares w h a =
    ground (arith, a, lengths_agree (length s) (s ∷ shares) (refl, h))

combine_list :
    (abi : Abi) (S : Type 0) (list : List Bytes) (blob : Bytes) (shares len : ℕ) (v : World S)
    {n : ℕ} {out : Bytes} {outlen : ℕ}
    → 0 < shares
    → length list ≡ shares
    → All (λ t. length t ≡ len) list
    → join list ≡ blob
    → abi v.calls (shamir (ShamirCall.combine blob shares len)) ≡ (pos n, out, outlen)
    → (combine abi list v).0 ≡ ok (take outlen out)
combine_list abi S [] blob shares len v p l h j a = absurd (omega (arith, p, l))
combine_list abi S (s ∷ list) blob shares len v p l h j a =
    combine_joined abi S s list v (rw h.0 h.1) (
      ap (λ x. abi v.calls (shamir (ShamirCall.combine x (length (s ∷ list)) (length s)))) j
      ∙ ap (λ x. abi v.calls (shamir (ShamirCall.combine blob x (length s)))) l
      ∙ ap (λ x. abi v.calls (shamir (ShamirCall.combine blob shares x))) h.0
      ∙ a)

-- If C, given the blob of all shares that it split a secret into, stores the secret again, then
-- `combine` gives back the secret that `split` was given.
pub combine-split :
    (abi : Abi) (S : Type 0) (b : ℕ) (secret : Bytes) (threshold shares : ℕ) (w v : World S)
    {n m : ℕ} {blob out : Bytes} {outlen : ℕ}
    → 0 < shares
    → abi w.calls (
        shamir
          (ShamirCall.split (b ∷ secret) threshold shares (shares * (1 + length (b ∷ secret)))))
      ≡ (pos n, blob, shares * (1 + length (b ∷ secret)))
    → length blob ≡ shares * (1 + length (b ∷ secret))
    → abi v.calls (shamir (ShamirCall.combine blob shares (1 + length (b ∷ secret))))
      ≡ (pos m, out, outlen)
    → take outlen out ≡ b ∷ secret
    → (list : List Bytes) × ((split abi (b ∷ secret) threshold shares w).0 ≡ ok list)
      × ((combine abi list v).0 ≡ ok (b ∷ secret))
combine-split abi S b secret threshold shares w v p a l c t =
    let (list, e, k, h, j) = split_shares abi S b secret threshold shares w a l in
    (list, e, combine_list abi S list _ shares (1 + length (b ∷ secret)) v p k h j c ∙ ap ok t)
