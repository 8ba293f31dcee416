-- ===== src/Directory/Names.antt =====
-- A directory as a function from names to inode numbers.
use file_system_fuse.Base.{
  ℕ, zero, suc, ◌+◌, ◌≤◌, ◌<◌, ◌≡◌, ◌≢◌, ◌∙◌, refl, sym, ap, ap₂, true, false, not, ◌&&◌, List, [],
  ◌∷◌, ◌==◌, inl, inr, Bool-cases, ==→eq, ==→ne, Option, none, some, arith, if◌then◌else◌,
}
use file_system_fuse.Base.Ssize.{minus_one}
use file_system_fuse.Bytes.{Block, load}
use file_system_fuse.Fs.{Fs}
use file_system_fuse.FilePath.{Chars, same, same_refl}
use file_system_fuse.Directory.{Search, FilePos, found, past_end, broken}
use file_system_fuse.Directory.Records.{Entry, IsRecords}
use file_system_fuse.Directory.Find.{lookup, lookup_all, place, lookup-broken, Search-cases}
use file_system_fuse.Directory.Added.{Inserted, here, later}

-- The first of two that is there.
abbrev pub or_else : Option ℕ → Option ℕ → Option ℕ
or_else none o = o
or_else (some v) o = some v

-- The inode number of the first entry in use of the name.
unfoldable pub number : Chars → List Entry → Option ℕ
number q [] = none
number q (e ∷ es) =
    let rest = number q es in if not (e.inum == 0) && same q e.name then some e.inum else rest

-- The same over the `n` lists from `i` on.
unfoldable pub names : (ℕ → List Entry) → (n i : ℕ) → Chars → Option ℕ
names ents zero i q = none
names ents (suc n) i q = or_else (number q (ents i)) (names ents n (suc i) q)

-- The inode number in the record that a search found.
abbrev pub number_at : Search → Block → Option ℕ
number_at (found pos before) b = some (load 8 b pos)
number_at past_end b = none
number_at broken b = none

abbrev pub number_of : Option FilePos → Option ℕ
number_of none = none
number_of (some pos) = some (load 8 pos.dblock pos.start_pos)

number-lookup :
    (q : Chars) (b : Block) (p prev : ℕ) (es : List Entry)
    → IsRecords b p es
    → number_at (lookup q p prev es) b ≡ number q es
unfolding lookup number
number-lookup q b p prev [] r = refl
number-lookup q b p prev (e ∷ es) (r, rs) = elim (Bool-cases (not (e.inum == 0) && same q e.name)) [
  | inl h ↦ rw (h, r.inum) refl
  | inr h ↦ rw h (number-lookup q b (p + e.size) p es rs)
]

-- The blocks from `i` on with their entries.
abbrev pub pages : (ℕ → ℕ) → (ℕ → List Entry) → (n i : ℕ) → List (ℕ × List Entry)
pages blk ents zero i = []
pages blk ents (suc n) i = (blk i, ents i) ∷ pages blk ents n (i + 1)

pub names-lookup_all :
    (q : Chars) (s : Fs) (blk : ℕ → ℕ) (ents : ℕ → List Entry) (n i : ℕ)
    → ((k : ℕ) → i ≤ k → k < i + n → IsRecords (s.disk (blk k)) 0 (ents k))
    → number_of (lookup_all q s i (pages blk ents n i)) ≡ names ents n i q
unfolding lookup_all place names
names-lookup_all q s blk ents zero i r = refl
names-lookup_all q s blk ents (suc n) i r =
    let own =
      number-lookup q (s.disk (blk i)) 0 minus_one (ents i) (r i (omega arith) (omega arith)) in
    let one : suc i ≡ i + 1 = omega arith in
    let rest = names-lookup_all q s blk ents n (i + 1) (λ k l u. r k (omega arith) (omega arith)) in
    elim (Search-cases (lookup q 0 minus_one (ents i))) [
      | inl (pos, before, e) ↦
          let first : number q (ents i) ≡ some (load 8 (s.disk (blk i)) pos) =
            sym own ∙ ap (λ x. number_at x (s.disk (blk i))) e in
          rw (e, first) refl
      | inr (inl e) ↦
          let none_here : number q (ents i) ≡ none =
            sym own ∙ ap (λ x. number_at x (s.disk (blk i))) e in
          rw (e, none_here, one) rest
      | inr (inr e) ↦ absurd (lookup-broken q 0 minus_one (ents i) e)
    ]

pub same-eq : (xs ys : Chars) → same xs ys ≡ true → xs ≡ ys
unfolding same
same-eq [] [] h = refl
same-eq [] (y ∷ ys) h = absurd (ground arith)
same-eq (x ∷ xs) [] h = absurd (ground arith)
same-eq (x ∷ xs) (y ∷ ys) h = elim (Bool-cases (y == x)) [
  | inl e ↦ ap₂ (λ c cs. c ∷ cs) (sym (==→eq y x e)) (same-eq xs ys (ground (arith, e, h)))
  | inr e ↦ absurd (ground (arith, e, h))
]

number-none :
    (q : Chars) (e : Entry) (es : List Entry)
    → number q (e ∷ es) ≡ none
    → ((not (e.inum == 0) && same q e.name) ≡ false) × (number q es ≡ none)
unfolding number
number-none q e es h = ground (arith, h)

module _ (inum : ℕ) (name : Chars) where
  -- With the entry inserted, its name leads to it if the name led nowhere.
  pub number-Inserted_self :
      {es es' : List Entry}
      → inum ≢ 0
      → Inserted inum name es es'
      → number name es ≡ none
      → number name es' ≡ some inum
  unfolding number
  number-Inserted_self z (here e size es) h =
      let u : (inum == 0) ≡ false = ground (arith, z) in
      rw ((number-none name e es h).0, u, same_refl name) refl
  number-Inserted_self z (later e {es} i) h =
      let (miss, rest) = number-none name e es h in rw miss (number-Inserted_self z i rest)

  -- Any other name leads where it led.
  pub number-Inserted_ne :
      {es es' : List Entry} (q : Chars)
      → same q name ≡ false
      → Inserted inum name es es'
      → number q es' ≡ number q es
  unfolding number
  number-Inserted_ne q n (here e size es) = elim (Bool-cases (inum == 0)) [
    | inl z ↦ rw (n, z) refl
    | inr z ↦ rw (n, z) refl
  ]
  number-Inserted_ne q n (later e i) = rw (number-Inserted_ne q n i) refl

-- The lists are the same but for the one at `k`.
abbrev pub ApartFrom : (k : ℕ) → (ents ents' : ℕ → List Entry) → Type 0
ApartFrom k ents ents' = (j : ℕ) → j ≢ k → ents' j ≡ ents j

pub names-congr :
    (q : Chars) (ents ents' : ℕ → List Entry) (n i : ℕ)
    → ((j : ℕ) → i ≤ j → j < i + n → number q (ents' j) ≡ number q (ents j))
    → names ents' n i q ≡ names ents n i q
unfolding names
names-congr q ents ents' zero i h = refl
names-congr q ents ents' (suc n) i h =
    rw
      (
        h i (omega arith) (omega arith),
        names-congr q ents ents' n (suc i) (λ j l u. h j (omega arith) (omega arith)),
      )
      refl

or_else-none : (o p : Option ℕ) → or_else o p ≡ none → (o ≡ none) × (p ≡ none)
or_else-none none p h = (refl, h)
or_else-none (some v) p h = absurd (ground arith)

names-none :
    (q : Chars) (ents : ℕ → List Entry) (n i : ℕ)
    → names ents (suc n) i q ≡ none
    → (number q (ents i) ≡ none) × (names ents n (suc i) q ≡ none)
unfolding names
names-none q ents n i h = or_else-none (number q (ents i)) _ h

pub names_self :
    (q : Chars) (ents ents' : ℕ → List Entry) (inum k n i : ℕ)
    → ApartFrom k ents ents'
    → number q (ents' k) ≡ some inum
    → i ≤ k
    → k < i + n
    → names ents n i q ≡ none
    → names ents' n i q ≡ some inum
unfolding names
names_self q ents ents' inum k zero i a e l u h = absurd (omega arith)
names_self q ents ents' inum k (suc n) i a e l u h = elim (Bool-cases (i == k)) [
  | inl own ↦ rw (==→eq i k own, e) refl
  | inr other ↦
      let ne = ==→ne i k other in
      let (first, rest) = names-none q ents n i h in
      rw (a i ne, first)
        (names_self q ents ents' inum k n (suc i) a e (omega (arith, ne, l)) (omega (arith, u))
          rest)
]

-- A name that leads nowhere is in none of the lists.
pub number-names :
    (q : Chars) (ents : ℕ → List Entry) (k n i : ℕ)
    → i ≤ k
    → k < i + n
    → names ents n i q ≡ none
    → number q (ents k) ≡ none
number-names q ents k zero i l u h = absurd (omega arith)
number-names q ents k (suc n) i l u h =
    let (first, rest) = names-none q ents n i h in
    elim (Bool-cases (i == k)) [
      | inl own ↦ rw (← ==→eq i k own) first
      | inr other ↦
          number-names q ents k n (suc i) (omega (arith, l, ==→ne i k other)) (omega (arith, u))
            rest
    ]

-- A list more, which has no entries.
pub names_more :
    (q : Chars) (ents : ℕ → List Entry) (n i : ℕ)
    → ents (i + n) ≡ []
    → names ents (suc n) i q ≡ names ents n i q
unfolding names number
names_more q ents zero i h = let start : ents i ≡ [] = ap ents (omega arith) ∙ h in rw start refl
names_more q ents (suc n) i h =
    ap (or_else (number q (ents i))) (names_more q ents n (suc i) (ap ents (omega arith) ∙ h))
