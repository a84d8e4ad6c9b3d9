-- ===== src/Framer/Ctrls.antt =====
-- The control frames that wait, and the one that goes into a packet.
use openquic.Common.{
  ℕ, ◌≤◌, ◌<◌, ◌≡◌, refl, ap, arith, Bool-cases, inl, inr, ◌⊎◌, List, [], ◌∷◌, ◌++◌, Option, none,
  some, ltb,
}
use openquic.Frame.{Frame}
use openquic.Frame.Dispatch.{frame_size}
use openquic.Framer.{Framer, take_fitting, append_ctrl_frame}

-- All frames have a size, and it is more than `capa`.
abbrev pub AllLarger : ℕ → List Frame → Type 0
AllLarger capa [] = Unit {0}
AllLarger capa (f ∷ fs) = ((n : ℕ) × (frame_size f ≡ some n) × (capa < n)) × AllLarger capa fs

-- What is taken is the first frame that fits; what is left is the rest, in order.
abbrev pub Fitting : ℕ → List Frame → Option (ℕ × Frame) → List Frame → Type 0
Fitting capa fs none left = AllLarger capa fs × (left ≡ fs)
Fitting capa fs (some (n, f)) left =
    (before : List Frame) × (after : List Frame) × (fs ≡ before ++ f ∷ after)
    × (left ≡ before ++ after)
    × AllLarger capa before
    × (frame_size f ≡ some n)
    × (n ≤ capa)

-- Every frame has a size.
abbrev pub AllSized : List Frame → Type 0
AllSized [] = Unit {0}
AllSized (f ∷ fs) = ((n : ℕ) × (frame_size f ≡ some n)) × AllSized fs

abbrev Taken : ℕ → List Frame → Type 0
Taken capa fs =
    (found : Option (ℕ × Frame)) × (left : List Frame) × (take_fitting capa fs ≡ some (found, left))
    × Fitting capa fs found left

later :
    (capa n : ℕ) (f : Frame) (fs left : List Frame) (found : Option (ℕ × Frame))
    → frame_size f ≡ some n
    → capa < n
    → Fitting capa fs found left
    → Fitting capa (f ∷ fs) found (f ∷ left)
later capa n f fs left none e l (all, same) = (((n, e, l), all), ap (λ xs. f ∷ xs) same)
later capa n f fs left (some (m, g)) e l (before, after, whole, rest, larger, size, fits) = (
  f ∷ before,
  after,
  ap (λ xs. f ∷ xs) whole,
  ap (λ xs. f ∷ xs) rest,
  ((n, e, l), larger),
  size,
  fits,
)

take_fitting-Fitting : (capa : ℕ) (fs : List Frame) → AllSized fs → Taken capa fs
unfolding take_fitting
take_fitting-Fitting capa [] h = (none, [], refl, (tt, refl))
take_fitting-Fitting capa (f ∷ fs) ((n, e), hs) = elim (Bool-cases (ltb capa n)) [
  | inl large ↦
      let (found, left, d, u) = take_fitting-Fitting capa fs hs in
      (
        found,
        f ∷ left,
        rw (e, take_fitting, large, d),
        later capa n f fs left found e (ground arith) u,
      )
  | inr small ↦
      (some (n, f), fs, rw (e, take_fitting, small), ([], fs, refl, refl, tt, e, ground arith))
]

-- Of control frames whose sizes can be told, the first that fits the room goes to the end of the
-- packet and leaves the queue, which keeps its order, and its size is returned; where none fits,
-- nothing changes, and 0 is returned.
pub append_ctrl_frame-Fitting :
    (capa : ℕ) (frames : List Frame) (m : Framer)
    → AllSized m.ctrls
    → ((append_ctrl_frame capa frames m ≡ some (0, frames, m)) × AllLarger capa m.ctrls)
      ⊎ ((n : ℕ) × (f : Frame) × (left : List Frame) × (append_ctrl_frame capa frames m
            ≡ some (n, frames ++ f ∷ [], record m { ctrls = left }))
          × Fitting capa m.ctrls (some (n, f)) left)
unfolding append_ctrl_frame
append_ctrl_frame-Fitting capa frames m h =
    let (found, left, e, u) = take_fitting-Fitting capa m.ctrls h in go found left e u
  where
    go :
        (found : Option (ℕ × Frame)) (left : List Frame)
        → take_fitting capa m.ctrls ≡ some (found, left)
        → Fitting capa m.ctrls found left
        → ((append_ctrl_frame capa frames m ≡ some (0, frames, m)) × AllLarger capa m.ctrls)
          ⊎ ((n : ℕ) × (f : Frame) × (left : List Frame) × (append_ctrl_frame capa frames m
                ≡ some (n, frames ++ f ∷ [], record m { ctrls = left }))
              × Fitting capa m.ctrls (some (n, f)) left)
    go none left e u = inl (rw (e, append_ctrl_frame), u.0)
    go (some (n, f)) left e u = inr (n, f, left, rw (e, append_ctrl_frame), u)
