-- ===== src/Schedule/Times.antt =====
-- packages/protocol/src/schedule.ts: times and dates as text. JavaScript's `Number` of a text is a parameter; `IsNumber`
-- says what it gives for decimal digits.
use remote_sql_agent.Prelude.{
  ℕ, suc, ◌+◌, ◌-◌, ◌*◌, ◌<◌, ◌==◌, ◌≡◌, ◌≢◌, refl, sym, ap, subst, ◌∙◌, false, not, Option, none,
  some, List, [], ◌∷◌, ◌++◌, length, get_elem?, take, drop, filter, All, decimal, IsDigit, value,
  pad_start, decimal-padded, split, split-part, split-last, arith,
}

-- "HH:MM:SS" and "yyyy-mm-dd".
unfoldable pub decode_time : ℕ → List ℕ
decode_time t =
    let s = pad_start 6 (decimal t) in
    take 2 s ++ b':' ∷ take 2 (drop 2 s) ++ b':' ∷ take 2 (drop 4 s)

unfoldable pub decode_date : ℕ → List ℕ
decode_date d =
    let s = pad_start 8 (decimal d) in
    take 4 s ++ b'-' ∷ take 2 (drop 4 s) ++ b'-' ∷ take 2 (drop 6 s)

abbrev pub IsNumber : (List ℕ → ℕ) → Type 0
IsNumber to_number = (s : List ℕ) → s ≢ [] → All IsDigit s → to_number s ≡ value s

module _ (to_number : List ℕ → ℕ) where
  -- `Number(parts[i] ?? 0)`.
  abbrev number_at : Option (List ℕ) → ℕ
  number_at none = 0
  number_at (some p) = to_number p

  unfoldable pub encode_time : List ℕ → ℕ
  encode_time hhmmss =
      let parts = split b':' hhmmss in
      let h = number_at (get_elem? parts 0) in
      let m = number_at (get_elem? parts 1) in
      let s = number_at (get_elem? parts 2) in h * 10000 + m * 100 + s

  -- `iso.replaceAll('-', '')`.
  unfoldable pub encode_date : List ℕ → ℕ
  encode_date iso = to_number (filter (λ c. not (c == b'-')) iso)

abbrev two : ℕ → ℕ → List ℕ
two a b = a ∷ b ∷ []

cons_of :
    (n : ℕ) (s : List ℕ)
    → length s ≡ suc n
    → All IsDigit s
    → (c : ℕ) × (t : List ℕ) × (s ≡ c ∷ t) × IsDigit c × (length t ≡ n) × All IsDigit t
cons_of n [] l d = absurd (omega (arith, l))
cons_of n (c ∷ t) l (h, d) = (c, t, refl, h, omega (arith, l), d)

pair_of :
    (n : ℕ) (s : List ℕ)
    → length s ≡ suc (suc n)
    → All IsDigit s
    → (a b : ℕ) × (t : List ℕ) × (s ≡ a ∷ b ∷ t)
      × IsDigit a
      × IsDigit b
      × (length t ≡ n)
      × All IsDigit t
pair_of n s l d =
    let (a, t, e, da, lt, dt) = cons_of (suc n) s l d in
    let (b, u, e', db, lu, du) = cons_of n t lt dt in
    (a, b, u, e ∙ ap (λ x. a ∷ x) e', da, db, lu, du)

nil_of : (s : List ℕ) → length s ≡ 0 → s ≡ []
nil_of [] l = refl
nil_of (c ∷ s) l = absurd (omega (arith, l))

module _ (to_number : List ℕ → ℕ) (number : IsNumber to_number) where
  number-two : (a b : ℕ) → IsDigit a → IsDigit b → to_number (two a b) ≡ (a - 48) * 10 + (b - 48)
  number-two a b da db = number (two a b) (λ e. cc) (da, (db, tt)) ∙ omega arith

  encode-parts :
      (a b c d e f : ℕ)
      → IsDigit a
      → IsDigit b
      → IsDigit c
      → IsDigit d
      → IsDigit e
      → IsDigit f
      → encode_time to_number (two a b ++ b':' ∷ two c d ++ b':' ∷ two e f)
        ≡ value (two a b ++ two c d ++ two e f)
  unfolding encode_time
  encode-parts a b c d e f da db dc dd de df =
      let free : (x : ℕ) → IsDigit x → (x == b':') ≡ false = λ x h. ground (arith, h) in
      let last = split-last b':' (two e f) (free e de, (free f df, tt)) in
      let mid =
        split-part b':' (two c d) (two e f) (free c dc, (free d dd, tt))
        ∙ ap (λ x. two c d ∷ x) last in
      let all =
        split-part b':' (two a b) (two c d ++ b':' ∷ two e f) (free a da, (free b db, tt))
        ∙ ap (λ x. two a b ∷ x) mid in
      rw (all) omega (arith, number-two a b da db, number-two c d dc dd, number-two e f de df)

  encode-padded :
      (s : List ℕ)
      → length s ≡ 6
      → All IsDigit s
      → encode_time to_number (take 2 s ++ b':' ∷ take 2 (drop 2 s) ++ b':' ∷ take 2 (drop 4 s))
        ≡ value s
  encode-padded s l d =
      let (a, b, t, e, da, db, lt, dt) = pair_of 4 s l d in
      let (c, x, u, e', dc, dx, lu, du) = pair_of 2 t lt dt in
      let (y, z, v, e'', dy, dz, lv, dv) = pair_of 0 u lu du in
      let whole : s ≡ two a b ++ two c x ++ two y z =
        e
        ∙ ap (λ w. a ∷ b ∷ w)
            (e' ∙ ap (λ w. c ∷ x ∷ w) (e'' ∙ ap (λ w. y ∷ z ∷ w) (nil_of v lv))) in
      subst
        (λ w.
          encode_time to_number (take 2 w ++ b':' ∷ take 2 (drop 2 w) ++ b':' ∷ take 2 (drop 4 w))
          ≡ value w)
        (sym whole) (encode-parts a b c x y z da db dc dx dy dz)

  -- A time of the encoding survives the way through its text.
  pub encode_time-decode_time : (t : ℕ) → t < 1000000 → encode_time to_number (decode_time t) ≡ t
  unfolding decode_time
  encode_time-decode_time t lt =
      let (l, v, d) = decimal-padded 5 t (omega (arith, lt)) in
      encode-padded (pad_start 6 (decimal t)) l d ∙ v

  encode-date_parts :
      (a b c d e f g h : ℕ)
      → IsDigit a
      → IsDigit b
      → IsDigit c
      → IsDigit d
      → IsDigit e
      → IsDigit f
      → IsDigit g
      → IsDigit h
      → encode_date to_number (two a b ++ two c d ++ b'-' ∷ two e f ++ b'-' ∷ two g h)
        ≡ value (two a b ++ two c d ++ two e f ++ two g h)
  unfolding encode_date
  encode-date_parts a b c d e f g h da db dc dd de df dg dh =
      let free : (x : ℕ) → IsDigit x → (x == b'-') ≡ false = λ x k. ground (arith, k) in
      rw (free a da, free b db, free c dc, free d dd, free e de, free f df, free g dg, free h dh)
        (number (two a b ++ two c d ++ two e f ++ two g h) (λ z. cc)
          (da, (db, (dc, (dd, (de, (df, (dg, (dh, tt)))))))))

  encode-padded_date :
      (s : List ℕ)
      → length s ≡ 8
      → All IsDigit s
      → encode_date to_number (take 4 s ++ b'-' ∷ take 2 (drop 4 s) ++ b'-' ∷ take 2 (drop 6 s))
        ≡ value s
  encode-padded_date s l k =
      let (a, b, t, e, da, db, lt, dt) = pair_of 6 s l k in
      let (c, d, u, e', dc, dd, lu, du) = pair_of 4 t lt dt in
      let (f, g, v, e'', df, dg, lv, dv) = pair_of 2 u lu du in
      let (h, i, w, e3, dh, di, lw, dw) = pair_of 0 v lv dv in
      let whole : s ≡ two a b ++ two c d ++ two f g ++ two h i =
        e
        ∙ ap (λ z. a ∷ b ∷ z)
            (e'
              ∙ ap (λ z. c ∷ d ∷ z)
                  (e'' ∙ ap (λ z. f ∷ g ∷ z) (e3 ∙ ap (λ z. h ∷ i ∷ z) (nil_of w lw)))) in
      subst
        (λ z.
          encode_date to_number (take 4 z ++ b'-' ∷ take 2 (drop 4 z) ++ b'-' ∷ take 2 (drop 6 z))
          ≡ value z)
        (sym whole) (encode-date_parts a b c d f g h i da db dc dd df dg dh di)

  pub encode_date-decode_date : (d : ℕ) → d < 100000000 → encode_date to_number (decode_date d) ≡ d
  unfolding decode_date
  encode_date-decode_date d lt =
      let (l, v, k) = decimal-padded 7 d (omega (arith, lt)) in
      encode-padded_date (pad_start 8 (decimal d)) l k ∙ v
