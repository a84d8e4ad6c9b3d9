-- ===== src/ConnidGen/Pool.antt =====
-- The memory of the identifiers in a tree of src/modules/connid_gen.c.
use openquic.Common.{
  ℕ, ◌+◌, ◌≤◌, ◌<◌, ◌≡◌, ◌≢◌, refl, ap, ◌∙◌, ◌||◌, inl, inr, arith, Bool, true, false, List, [],
  ◌∷◌, none, some, ltb, ◌==◌, Bool-cases,
}
use openquic.ConnidGen.{Gened, ConnidGen, World, find, insert, remove}
use openquic.ConnidGen.Trees.{IsOrdered, insert-IsOrdered, remove-IsOrdered, has}

-- Whether an identifier has its bytes at this address.
abbrev pub owns : ℕ → List Gened → Bool
owns p [] = false
owns p (g ∷ gs) = g.connid.buf == p || owns p gs

-- The identifiers have memory of their own, from one of the first `n` calls of malloc, and it is not
-- freed.
abbrev pub IsLive : List Gened → List ℕ → ℕ → Type 0
IsLive [] fr n = Unit {0}
IsLive (g ∷ gs) fr n =
    (g.connid.buf < n)
    × (has g.connid.buf fr ≡ false)
    × (owns g.connid.buf gs ≡ false)
    × IsLive gs fr n

abbrev pub AllBelow : List ℕ → ℕ → Type 0
AllBelow [] n = Unit {0}
AllBelow (p ∷ ps) n = (p < n) × AllBelow ps n

not_has : (ps : List ℕ) (n : ℕ) → AllBelow ps n → has n ps ≡ false
not_has [] n h = refl
not_has (p ∷ ps) n h = ground (arith, not_has ps n h.1)

pub AllBelow-mono : (ps : List ℕ) (n m : ℕ) → n ≤ m → AllBelow ps n → AllBelow ps m
AllBelow-mono [] n m h a = tt
AllBelow-mono (p ∷ ps) n m h a = (omega arith, AllBelow-mono ps n m h a.1)

pub IsLive-mono :
    (gs : List Gened) (fr : List ℕ) (n m : ℕ) → n ≤ m → IsLive gs fr n → IsLive gs fr m
IsLive-mono [] fr n m h a = tt
IsLive-mono (g ∷ gs) fr n m h (a, b, c, d) = (omega arith, b, c, IsLive-mono gs fr n m h d)

not_owns : (gs : List Gened) (fr : List ℕ) (n m : ℕ) → n ≤ m → IsLive gs fr n → owns m gs ≡ false
not_owns [] fr n m h l = refl
not_owns (g ∷ gs) fr n m h l = ground (arith, not_owns gs fr n m h l.3)

pub IsLive-free :
    (p : ℕ) (gs : List Gened) (fr : List ℕ) (n : ℕ)
    → owns p gs ≡ false
    → IsLive gs fr n
    → IsLive gs (p ∷ fr) n
IsLive-free p [] fr n o l = tt
IsLive-free p (g ∷ gs) fr n o (a, b, c, d) =
    (a, ground arith, c, IsLive-free p gs fr n (ground arith) d)

owns-remove : (p k : ℕ) (gs : List Gened) → owns p gs ≡ false → owns p (remove k gs) ≡ false
unfolding remove
owns-remove p k [] o = refl
owns-remove p k (g ∷ gs) o = ground (arith, owns-remove p k gs)

owns-find : (k : ℕ) (g : Gened) (gs : List Gened) → find k gs ≡ some g → owns g.connid.buf gs ≡ true
unfolding find
owns-find k g [] f = cc
owns-find k g (x ∷ xs) f = ground (arith, owns-find k g xs)

IsLive-remove :
    (k : ℕ) (g : Gened) (gs : List Gened) (fr : List ℕ) (n : ℕ)
    → find k gs ≡ some g
    → IsLive gs fr n
    → IsLive (remove k gs) (g.connid.buf ∷ fr) n × (g.connid.buf < n)
unfolding remove find
IsLive-remove k g [] fr n f l = cc
IsLive-remove k g (x ∷ xs) fr n f l = elim (Bool-cases (x.key == k)) [
  | inl same ↦
      let e : g.connid.buf ≡ x.connid.buf = ground arith in
      rw (same, e) (IsLive-free x.connid.buf xs fr n l.2 l.3, l.0)
  | inr other ↦
      let f' : find k xs ≡ some g = ground arith in
      let (live, lt) = IsLive-remove k g xs fr n f' l.3 in
      let apart : has x.connid.buf (g.connid.buf ∷ fr) ≡ false =
        ground (arith, owns-find k g xs f') in
      rw other ((l.0, apart, owns-remove x.connid.buf k xs l.2, live), lt)
]

owns-insert :
    (p : ℕ) (g : Gened) (gs : List Gened)
    → g.connid.buf ≢ p
    → owns p gs ≡ false
    → owns p (insert g gs) ≡ false
unfolding insert
owns-insert p g [] n o = ground arith
owns-insert p g (x ∷ xs) n o = ground (arith, owns-insert p g xs n)

IsLive-insert :
    (g : Gened) (gs : List Gened) (fr : List ℕ) (n : ℕ)
    → IsLive gs fr n
    → AllBelow fr n
    → g.connid.buf ≡ n
    → IsLive (insert g gs) fr (n + 1)
unfolding insert
IsLive-insert g [] fr n l a e = (omega arith, rw e (not_has fr n a), refl, tt)
IsLive-insert g (x ∷ xs) fr n l a e = elim (Bool-cases (ltb x.key g.key)) [
  | inl less ↦ rw less (
    omega (arith, l.0),
    l.1,
    owns-insert x.connid.buf g xs (λ h. omega (arith, l.0)) l.2,
    IsLive-insert g xs fr n l.3 a e,
  )
  | inr more ↦ rw more (
    omega arith,
    rw e (not_has fr n a),
    ap (λ p. owns p (x ∷ xs)) e ∙ not_owns (x ∷ xs) fr n n (omega arith) l,
    IsLive-mono (x ∷ xs) fr n (n + 1) (omega arith) l,
  )
]

-- The identifiers of the peer, in memory of their own that is not freed.
pub record IsPool (gs : List Gened) (w : World) : Type 0 where
  pub ordered : IsOrdered 0 gs
  pub live : IsLive gs w.freed w.mallocs
  pub freed_lt : AllBelow w.freed w.mallocs

-- The session uses the identifier that dst_active names.
pub record IsInUse (m : ConnidGen) (w : World) : Type 0 where
  pub pool : IsPool m.dsts w
  pub active : find m.dst_active m.dsts ≡ some (record { key = m.dst_active; connid = w.dst })

-- An operation that gives memory and frees none.
pub IsPool-more :
    (gs : List Gened) (w w' : World)
    → w'.freed ≡ w.freed
    → w.mallocs ≤ w'.mallocs
    → IsPool gs w
    → IsPool gs w'
IsPool-more gs w w' f l p = record {
  ordered = p.ordered;
  live = rw f (IsLive-mono gs w.freed w.mallocs w'.mallocs l p.live);
  freed_lt = rw f (AllBelow-mono w.freed w.mallocs w'.mallocs l p.freed_lt);
}

pub IsPool-insert :
    (g : Gened) (gs : List Gened) (w w' : World)
    → w'.freed ≡ w.freed
    → w.mallocs ≤ g.connid.buf
    → w'.mallocs ≡ g.connid.buf + 1
    → find g.key gs ≡ none
    → IsPool gs w
    → IsPool (insert g gs) w'
IsPool-insert g gs w w' f l e n p = record {
  ordered = insert-IsOrdered 0 g gs p.ordered (omega arith) n;
  live =
      rw (f, e)
        (IsLive-insert g gs w.freed g.connid.buf
          (IsLive-mono gs w.freed w.mallocs g.connid.buf l p.live)
          (AllBelow-mono w.freed w.mallocs g.connid.buf l p.freed_lt) refl);
  freed_lt = rw f (AllBelow-mono w.freed w.mallocs w'.mallocs (omega arith) p.freed_lt);
}

pub IsPool-remove :
    (k : ℕ) (g : Gened) (gs : List Gened) (w w' : World)
    → find k gs ≡ some g
    → w'.freed ≡ g.connid.buf ∷ w.freed
    → w.mallocs ≤ w'.mallocs
    → IsPool gs w
    → IsPool (remove k gs) w'
IsPool-remove k g gs w w' f e l p =
    let (live, lt) = IsLive-remove k g gs w.freed w.mallocs f p.live in
    record {
      ordered = remove-IsOrdered 0 k gs p.ordered;
      live = rw e (IsLive-mono (remove k gs) (g.connid.buf ∷ w.freed) w.mallocs w'.mallocs l live);
      freed_lt = rw e (omega arith, AllBelow-mono w.freed w.mallocs w'.mallocs l p.freed_lt);
    }
