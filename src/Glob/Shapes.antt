-- ===== src/Glob/Shapes.antt =====
-- Which paths a glob matches: the patterns of util/glob.ts with at most one `**`, a segment of its own.
use mathlib.Core.List.{append-nil, append_assoc}
use urateam.Prelude.{
  ℕ, ◌≡◌, refl, ap, sym, subst, ◌∙◌, ◌↔◌, ◌⊎◌, inl, inr, true, List, [], ◌∷◌, ◌++◌, map, iff_trans,
}
use urateam.Glob.{mid, lead, trail, single, matches}
use urateam.Glob.Language.{Lang, Then, SomeDots, slashed, run_iff}
use urateam.Glob.Compile.{NoDeep, compile-NoDeep}
use urateam.Glob.Words.{Fits, Lang-singles, singles-Lang, Lang-single_iff}
use urateam.Glob.Passes.{compile-trailing, compile-leading, compile-inner}

below_iff :
    (p s : List ℕ)
    → NoDeep p
    → Lang (map single p ++ trail ∷ []) s
      ↔ (Fits p s ⊎ ((u : List ℕ) × (v : List ℕ) × (s ≡ u ++ b'/' ∷ v) × Fits p u × SomeDots v))
below_iff p s h =
    (λ l. to (Lang-singles p (trail ∷ []) s h l), λ d. singles-Lang p (trail ∷ []) s h (from d))
  where
    to :
        Then (Fits p) (Lang (trail ∷ [])) s
        → Fits p s ⊎ ((u : List ℕ) × (v : List ℕ) × (s ≡ u ++ b'/' ∷ v) × Fits p u × SomeDots v)
    to (u, v, cut, fits, (x, y, cut', inl empty, done)) = inl (
        subst (Fits p)
          (sym (cut ∙ ap (λ r. u ++ r) (cut' ∙ ap (λ r. r ++ y) empty ∙ done) ∙ append-nil u)) fits)
    to (u, v, cut, fits, (x, y, cut', inr (z, e, d), done)) =
        inr
          (u, z, cut ∙ ap (λ r. u ++ r) (cut' ∙ ap (λ r. x ++ r) done ∙ append-nil x ∙ e), fits, d)

    from :
        Fits p s ⊎ ((u : List ℕ) × (v : List ℕ) × (s ≡ u ++ b'/' ∷ v) × Fits p u × SomeDots v)
        → Then (Fits p) (Lang (trail ∷ [])) s
    from (inl fits) = (s, [], sym (append-nil s), fits, ([], [], refl, inl refl, refl))
    from (inr (u, v, cut, fits, d)) =
        (u, b'/' ∷ v, cut, fits, (b'/' ∷ v, [], sym (append-nil _), inr (v, refl, d), refl))

anywhere_iff :
    (q s : List ℕ)
    → NoDeep q
    → Lang (lead ∷ map single q) s
      ↔ (Fits q s ⊎ ((v : List ℕ) × (w : List ℕ) × (s ≡ v ++ b'/' ∷ w) × SomeDots v × Fits q w))
anywhere_iff q s k = (to, from)
  where
    to :
        Lang (lead ∷ map single q) s
        → Fits q s ⊎ ((v : List ℕ) × (w : List ℕ) × (s ≡ v ++ b'/' ∷ w) × SomeDots v × Fits q w)
    to (u, w, cut, inl empty, l) =
        inl (subst (Fits q) (sym (cut ∙ ap (λ r. r ++ w) empty)) ((Lang-single_iff q w k).0 l))
    to (u, w, cut, inr (v, e, d), l) = inr (
      v,
      w,
      cut ∙ ap (λ r. r ++ w) e ∙ append_assoc v (b'/' ∷ []) w,
      d,
      (Lang-single_iff q w k).0 l,
    )

    from :
        Fits q s ⊎ ((v : List ℕ) × (w : List ℕ) × (s ≡ v ++ b'/' ∷ w) × SomeDots v × Fits q w)
        → Lang (lead ∷ map single q) s
    from (inl fits) = ([], s, refl, inl refl, (Lang-single_iff q s k).1 fits)
    from (inr (v, w, cut, d, fits)) = (
      slashed v,
      w,
      cut ∙ sym (append_assoc v (b'/' ∷ []) w),
      inr (v, refl, d),
      (Lang-single_iff q w k).1 fits,
    )

-- A path of each pattern, with a slash or some directories in between.
abbrev Between : List ℕ → List ℕ → List ℕ → Type 0
Between p q s =
    (u : List ℕ) × (w : List ℕ) × Fits p u
    × Fits q w
    × ((s ≡ u ++ b'/' ∷ w) ⊎ ((v : List ℕ) × (s ≡ u ++ b'/' ∷ (v ++ b'/' ∷ w)) × SomeDots v))

inner_iff :
    (p q s : List ℕ)
    → NoDeep p
    → NoDeep q
    → Lang (map single p ++ mid ∷ map single q) s ↔ Between p q s
inner_iff p q s h k =
    (λ l. to (Lang-singles p _ s h l), λ b. singles-Lang p (mid ∷ map single q) s h (from b))
  where
    to : Then (Fits p) (Lang (mid ∷ map single q)) s → Between p q s
    to (u, r, cut, fits, (x, w, cut', inl e, l)) = (
      u,
      w,
      fits,
      (Lang-single_iff q w k).0 l,
      inl (cut ∙ ap (λ y. u ++ y) (cut' ∙ ap (λ y. y ++ w) e)),
    )
    to (u, r, cut, fits, (x, w, cut', inr (v, e, d), l)) = (
      u,
      w,
      fits,
      (Lang-single_iff q w k).0 l,
      inr (
        v,
        cut
            ∙ ap (λ y. u ++ y)
                (cut' ∙ ap (λ y. y ++ w) e ∙ ap (λ y. b'/' ∷ y) (append_assoc v (b'/' ∷ []) w)),
        d,
      ),
    )

    from : Between p q s → Then (Fits p) (Lang (mid ∷ map single q)) s
    from (u, w, fits, fits', inl cut) =
        (u, b'/' ∷ w, cut, fits, (b'/' ∷ [], w, refl, inl refl, (Lang-single_iff q w k).1 fits'))
    from (u, w, fits, fits', inr (v, cut, d)) = (
      u,
      b'/' ∷ (v ++ b'/' ∷ w),
      cut,
      fits,
      (
        b'/' ∷ slashed v,
        w,
        ap (λ y. b'/' ∷ y) (sym (append_assoc v (b'/' ∷ []) w)),
        inr (v, refl, d),
        (Lang-single_iff q w k).1 fits',
      ),
    )

-- For patterns p and q with no `**` and no U+0000: p matches the paths that its units stand for, one
-- after the other; p/** matches what p does and each path below it; **/q what q does, at the root and
-- below any directory; and p/**/q a path of p and one of q with nothing or some directories in between.
-- What `**` stands for has no line terminator.
pub matches_shapes :
    (p q s : List ℕ)
    → NoDeep p
    → NoDeep q
    → ((matches p s ≡ true) ↔ Fits p s)
      × ((matches (p ++ b'/' ∷ b'*' ∷ b'*' ∷ []) s ≡ true) ↔ (
          Fits p s ⊎ ((u : List ℕ) × (v : List ℕ) × (s ≡ u ++ b'/' ∷ v) × Fits p u × SomeDots v)))
      × ((matches (b'*' ∷ b'*' ∷ b'/' ∷ q) s ≡ true) ↔ (
          Fits q s ⊎ ((v : List ℕ) × (w : List ℕ) × (s ≡ v ++ b'/' ∷ w) × SomeDots v × Fits q w)))
      × ((matches (p ++ b'/' ∷ b'*' ∷ b'*' ∷ b'/' ∷ q) s ≡ true) ↔ (
          (u : List ℕ) × (w : List ℕ) × Fits p u
          × Fits q w
          × ((s ≡ u ++ b'/' ∷ w)
              ⊎ ((v : List ℕ) × (s ≡ u ++ b'/' ∷ (v ++ b'/' ∷ w)) × SomeDots v))))
unfolding matches
matches_shapes p q s h k = (
  rw (compile-NoDeep p h) (iff_trans (run_iff (map single p) s) (Lang-single_iff p s h)),
  rw (compile-trailing p h) (iff_trans (run_iff (map single p ++ trail ∷ []) s) (below_iff p s h)),
  rw (compile-leading q k) (iff_trans (run_iff (lead ∷ map single q) s) (anywhere_iff q s k)),
  rw (compile-inner p q h k)
      (iff_trans (run_iff (map single p ++ mid ∷ map single q) s) (inner_iff p q s h k)),
)
