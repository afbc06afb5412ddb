-- ===== src/Threads/Create/Minting.antt =====
-- The loop of `create` finds a free id: its ids are distinct, and finitely many are barred.
use mathlib.Core.List.{append_cancel_left, append_cancel_right}
use the_watcher.Prelude.{
  ℕ, zero, suc, ◌+◌, ◌<◌, ◌≡◌, refl, ap, ◌∙◌, ◌⊎◌, inl, inr, arith, true, false, Option, none, some,
  List, [], ◌∷◌, ◌++◌, map, length, length-append,
}
use the_watcher.Prelude.{
  ◌==◌, nat_is_eq, list_is_eq, list_eq_iff, contains, contains-append, Distinct, Bool-cases,
}
use the_watcher.Prelude.Dict.{Dict, keys, insert, lookup-ne-none}
use the_watcher.Text.{Text, codes}
use the_watcher.Vault.{Vault, Created, create_found}
use the_watcher.Vault as V
use the_watcher.Vault.Laws.{at}
use the_watcher.Threads.Page.{Content}
use the_watcher.Threads.Slugs.{candidate, candidate-injective, length-Distinct}
use the_watcher.Threads.Store.{}
use the_watcher.Threads.Create.{page_at, or_next, mint}

page_at-injective : (dir s t : Text) → page_at dir s ≡ page_at dir t → s ≡ t
unfolding page_at
page_at-injective dir s t h =
    append_cancel_right s t (codes ".md")
      (cc (append_cancel_left dir (47 ∷ (s ++ codes ".md")) (47 ∷ (t ++ codes ".md")) h))

contains-map :
    (f : Text → Text) (xs : List Text) (x : Text)
    → contains xs x ≡ true
    → contains (map f xs) (f x) ≡ true
contains-map f [] x h = h
contains-map f (y ∷ ys) x h = elim (Bool-cases (y == x)) [
  | inl e ↦ rw ((list_eq_iff (f y) (f x)).1 (ap f ((list_eq_iff y x).0 e))) refl
  | inr e ↦ ground (arith, contains-map f ys x, e, h)
]

length-map : (f : Text → Text) (xs : List Text) → length (map f xs) ≡ length xs
length-map f [] = refl
length-map f (x ∷ xs) = ap suc (length-map f xs)

length-keys : {C : Type 0} (d : Dict Text C) → length (keys d) ≡ length d
length-keys [] = refl
length-keys ((k, v) ∷ d) = ap suc (length-keys d)

module _ (base dir : Text) where
  -- The pages that `fuel` tries from a suffix on look at.
  abbrev looked_at : ℕ → ℕ → List Text
  looked_at zero suffix = []
  looked_at (suc fuel) suffix = page_at dir (candidate base suffix) ∷ looked_at fuel (suc suffix)

  same_suffix :
      (m n : ℕ) → (page_at dir (candidate base m) == page_at dir (candidate base n)) ≡ true → m ≡ n
  same_suffix m n e = candidate-injective base m n (
      page_at-injective dir (candidate base m) (candidate base n)
        ((list_eq_iff (page_at dir (candidate base m)) (page_at dir (candidate base n))).0 e))

  later_pages :
      (fuel m n : ℕ) → n < m → contains (looked_at fuel m) (page_at dir (candidate base n)) ≡ false
  later_pages zero m n lt = refl
  later_pages (suc fuel) m n lt =
      let here = page_at dir (candidate base m) == page_at dir (candidate base n) in
      elim (Bool-cases here) [
        | inl e ↦ absurd (omega (arith, same_suffix m n e, lt))
        | inr e ↦ rw e (later_pages fuel (suc m) n (omega arith))
      ]

  looked_at-Distinct : (fuel n : ℕ) → Distinct (looked_at fuel n)
  looked_at-Distinct zero n = tt
  looked_at-Distinct (suc fuel) n =
      (later_pages fuel (suc n) n (omega arith), looked_at-Distinct fuel (suc n))

  length-looked_at : (fuel n : ℕ) → length (looked_at fuel n) ≡ fuel
  length-looked_at zero n = refl
  length-looked_at (suc fuel) n = ap suc (length-looked_at fuel (suc n))

module _ (hash : Content → Text) (base dir : Text) (taken : List Text) (render : Text → Content)
    (v : Vault Content) where
  -- The id is free, and the loop takes it.
  abbrev pub Takes : Option (Text × (Text × Vault Content)) → Text → Type 0
  Takes o slug =
      (contains taken slug ≡ false)
      × (at (page_at dir slug) v ≡ none)
      × (o
          ≡ some (
            slug,
            (
              hash (render slug),
              record v { files = insert (page_at dir slug) (render slug) v.files },
            ),
          ))

  abbrev barred : List Text
  barred = map (page_at dir) taken ++ keys v.files

  barred_found :
      (slug : Text) (c : Content)
      → at (page_at dir slug) v ≡ some c
      → contains barred (page_at dir slug) ≡ true
  barred_found slug c h =
      let path = page_at dir slug in
      ground (
        arith,
        contains-append (map (page_at dir) taken) (keys v.files) path,
        (lookup-ne-none path v.files).0 (λ e. cc (e, h)),
      )

  barred_taken :
      (slug : Text) → contains taken slug ≡ true → contains barred (page_at dir slug) ≡ true
  barred_taken slug h = ground (
    arith,
    contains-append (map (page_at dir) taken) (keys v.files) (page_at dir slug),
    contains-map (page_at dir) taken slug h,
  )

  -- The pages that `n` suffixes look at are barred.
  abbrev AllBarred : ℕ → ℕ → Type 0
  AllBarred fuel suffix =
      (a : Text) → contains (looked_at base dir fuel suffix) a ≡ true → contains barred a ≡ true

  all_barred :
      (fuel suffix : ℕ)
      → contains barred (page_at dir (candidate base suffix)) ≡ true
      → AllBarred fuel (suc suffix)
      → AllBarred (suc fuel) suffix
  all_barred fuel suffix h rest a g =
      let path = page_at dir (candidate base suffix) in
      ground (arith, list_eq_iff path a, h, rest a, g)

  abbrev Minted : ℕ → ℕ → Type 0
  Minted fuel suffix =
      ((slug : Text) × Takes (mint hash base dir taken render fuel suffix v) slug)
      ⊎ AllBarred fuel suffix

  mint_found :
      (fuel suffix : ℕ) (o : Option Content)
      → at (page_at dir (candidate base suffix)) v ≡ o
      → contains taken (candidate base suffix) ≡ false
      → Minted fuel (suc suffix)
      → Minted (suc fuel) suffix
  unfolding mint or_next V.create create_found
  mint_found fuel suffix none h free rest =
      inl (candidate base suffix, (free, h, rw (free, h) refl))
  mint_found fuel suffix (some c) h free (inl (slug, (f, g, k))) =
      inl (slug, (f, g, rw (free, h) k))
  mint_found fuel suffix (some c) h free (inr rest) =
      inr (all_barred fuel suffix (barred_found (candidate base suffix) c h) rest)

  mint_taken :
      (fuel suffix : ℕ)
      → contains taken (candidate base suffix) ≡ true
      → Minted fuel (suc suffix)
      → Minted (suc fuel) suffix
  unfolding mint
  mint_taken fuel suffix h (inl (slug, (f, g, k))) = inl (slug, (f, g, rw h k))
  mint_taken fuel suffix h (inr rest) =
      inr (all_barred fuel suffix (barred_taken (candidate base suffix) h) rest)

  mint-Minted : (fuel suffix : ℕ) → Minted fuel suffix
  mint-Minted zero suffix = inr (λ a g. absurd (cc g))
  mint-Minted (suc fuel) suffix =
      let slug = candidate base suffix in
      let rest = mint-Minted fuel (suc suffix) in
      elim (Bool-cases (contains taken slug)) [
        | inl e ↦ mint_taken fuel suffix e rest
        | inr e ↦ mint_found fuel suffix (at (page_at dir slug) v) refl e rest
      ]

  length-barred : length barred ≡ length taken + length (keys v.files)
  length-barred =
      length-append (map (page_at dir) taken) (keys v.files)
      ∙ ap (λ n. n + length (keys v.files)) (length-map (page_at dir) taken)

  -- One try more than there are ids and pages finds a free id.
  pub mint_enough :
      (suffix : ℕ)
      → (slug : Text) × Takes
          (mint hash base dir taken render (suc (length taken + length (keys v.files))) suffix v)
          slug
  mint_enough suffix =
      let fuel = suc (length taken + length (keys v.files)) in
      elim (mint-Minted fuel suffix) [
        | inl found ↦ found
        | inr all ↦ absurd (
            omega (
              arith,
              length-Distinct (looked_at base dir fuel suffix) barred
                  (looked_at-Distinct base dir fuel suffix) all,
              length-looked_at base dir fuel suffix,
              length-barred,
            ))
      ]
