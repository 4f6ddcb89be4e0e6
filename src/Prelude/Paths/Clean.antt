-- ===== src/Prelude/Paths/Clean.antt =====
-- How plain elements come out of Clean and Join, and apart again.
use Prim.Native.Nat.{ℕ}
use mathlib.Core.Path.{◌≡◌, refl, sym, ap, ◌∙◌}
use mathlib.Core.Logic.{◌⊎◌, inl, inr}
use mathlib.Core.Bool.{Bool, true, false}
use mathlib.Core.Option.{Option, none, some, some_inj}
use mathlib.Core.List.{List, [], ◌∷◌, ◌++◌, append_assoc, append-nil}
use native.Mathlib.Omega.{arith}
use s3_cache.Prelude.Tests.{◌==◌, if◌then◌else◌, Bool-cases}
use s3_cache.Prelude.Text.{codes, Lacks}
use s3_cache.Prelude.Assoc.{same}
use s3_cache.Prelude.Paths.{
  elements_from, elements, push, push_all, render, is_rooted, clean, joined, join_path,
}

-- An element that Clean leaves alone.
pub record IsPlain (e : List ℕ) : Type 0 where
  pub no_slash : Lacks b'/' e
  pub not_empty : same e [] ≡ false
  pub not_dot : same e (codes ".") ≡ false
  pub not_back : same e (codes "..") ≡ false

elements_from-slash :
    (acc a b : List ℕ)
    → elements_from acc (a ++ b'/' ∷ b) ≡ elements_from acc a ++ elements_from [] b
unfolding elements_from
elements_from-slash acc [] b = refl
elements_from-slash acc (c ∷ a) b =
    ground (arith, elements_from-slash [] a b, elements_from-slash (acc ++ c ∷ []) a b)

elements_from-Lacks : (acc e : List ℕ) → Lacks b'/' e → elements_from acc e ≡ (acc ++ e) ∷ []
unfolding elements_from
elements_from-Lacks acc [] h = ground (arith, append-nil acc)
elements_from-Lacks acc (c ∷ e) h =
    ground (arith, elements_from-Lacks (acc ++ c ∷ []) e h.1, append_assoc acc (c ∷ []) e)

push_all-append :
    (r : Bool) (st xs ys : List (List ℕ))
    → push_all r st (xs ++ ys) ≡ push_all r (push_all r st xs) ys
unfolding push_all
push_all-append r st [] ys = refl
push_all-append r st (x ∷ xs) ys = push_all-append r (push r st x) xs ys

push-IsPlain : (r : Bool) (st : List (List ℕ)) (e : List ℕ) → IsPlain e → push r st e ≡ e ∷ st
unfolding push
push-IsPlain r st e p = rw (push, p.not_empty, p.not_dot, p.not_back) refl

abbrev pub stack_of : List ℕ → List (List ℕ)
stack_of root = push_all (is_rooted root) [] (elements root)

elements-three :
    (root a b c : List ℕ)
    → IsPlain a
    → IsPlain b
    → IsPlain c
    → elements (root ++ b'/' ∷ (a ++ b'/' ∷ (b ++ b'/' ∷ c))) ≡ elements root ++ (a ∷ b ∷ c ∷ [])
unfolding elements
elements-three root a b c pa pb pc =
    elements_from-slash [] root (a ++ b'/' ∷ (b ++ b'/' ∷ c))
    ∙ ap (λ es. elements_from [] root ++ es)
        (elements_from-slash [] a (b ++ b'/' ∷ c)
          ∙ rw (elements_from-Lacks [] a pa.no_slash) (
              ap (λ es. a ∷ es)
                (elements_from-slash [] b c
                  ∙ rw (elements_from-Lacks [] b pb.no_slash, elements_from-Lacks [] c pc.no_slash)
                      refl)))

push_all-three :
    (r : Bool) (st : List (List ℕ)) (a b c : List ℕ)
    → IsPlain a
    → IsPlain b
    → IsPlain c
    → push_all r st (a ∷ b ∷ c ∷ []) ≡ c ∷ b ∷ a ∷ st
unfolding push_all
push_all-three r st a b c pa pb pc =
    rw (push-IsPlain r st a pa, push-IsPlain r (a ∷ st) b pb, push-IsPlain r (b ∷ a ∷ st) c pc) refl

is_rooted-append : (root s : List ℕ) → same root [] ≡ false → is_rooted (root ++ s) ≡ is_rooted root
unfolding same
is_rooted-append [] s h = cc
is_rooted-append (c ∷ root) s h = refl

-- Where the first of the elements comes to lie.
abbrev pub under : List ℕ → List ℕ → List ℕ
under root a = render (is_rooted root) (a ∷ stack_of root)

slash-ne-nil : (x y : List ℕ) → same (x ++ b'/' ∷ y) [] ≡ false
unfolding same
slash-ne-nil [] y = refl
slash-ne-nil (c ∷ x) y = refl

joined_last : (e : List ℕ) → same e [] ≡ false → joined (e ∷ []) ≡ e
unfolding joined same
joined_last e h = rw (joined, h) refl

joined_more :
    (e : List ℕ) (es : List (List ℕ)) (p : List ℕ)
    → same e [] ≡ false
    → same p [] ≡ false
    → joined es ≡ p
    → joined (e ∷ es) ≡ e ++ b'/' ∷ p
unfolding joined
joined_more e es p h k q = rw (joined, q, h, k) refl

joined-three :
    (root a b c : List ℕ)
    → same root [] ≡ false
    → IsPlain a
    → IsPlain b
    → IsPlain c
    → joined (root ∷ a ∷ b ∷ c ∷ []) ≡ root ++ b'/' ∷ (a ++ b'/' ∷ (b ++ b'/' ∷ c))
joined-three root a b c h pa pb pc =
    joined_more root (a ∷ b ∷ c ∷ []) (a ++ b'/' ∷ (b ++ b'/' ∷ c)) h
      (slash-ne-nil a (b ++ b'/' ∷ c))
      (joined_more a (b ∷ c ∷ []) (b ++ b'/' ∷ c) pa.not_empty (slash-ne-nil b c)
        (joined_more b (c ∷ []) c pb.not_empty pc.not_empty (joined_last c pc.not_empty)))

-- Join puts plain elements under a directory as they are.
pub join_path-three :
    (root a b c : List ℕ)
    → same root [] ≡ false
    → IsPlain a
    → IsPlain b
    → IsPlain c
    → join_path (root ∷ a ∷ b ∷ c ∷ []) ≡ (under root a ++ b'/' ∷ b) ++ b'/' ∷ c
unfolding join_path clean render
join_path-three root a b c h pa pb pc =
    let p : List ℕ = root ++ b'/' ∷ (a ++ b'/' ∷ (b ++ b'/' ∷ c)) in
    let r : Bool = is_rooted root in
    let stack : push_all r [] (elements p) ≡ c ∷ b ∷ a ∷ stack_of root =
      ap (push_all r []) (elements-three root a b c pa pb pc)
      ∙ push_all-append r [] (elements root) (a ∷ b ∷ c ∷ [])
      ∙ push_all-three r (stack_of root) a b c pa pb pc in
    rw
      (
        join_path,
        joined-three root a b c h pa pb pc,
        slash-ne-nil root (a ++ b'/' ∷ (b ++ b'/' ∷ c)),
        clean,
        is_rooted-append root (b'/' ∷ (a ++ b'/' ∷ (b ++ b'/' ∷ c))) h,
        stack,
      )
      refl

-- The parts around the last slash.
unfoldable pub cut_last : List ℕ → Option (List ℕ × List ℕ)
cut_last [] = none
cut_last (c ∷ s) = elim (cut_last s) [
  | none ↦ if c == b'/' then some ([], s) else none
  | some (x, e) ↦ some (c ∷ x, e)
]

pub cut_last-Lacks : (e : List ℕ) → Lacks b'/' e → cut_last e ≡ none
unfolding cut_last
cut_last-Lacks [] h = refl
cut_last-Lacks (c ∷ e) h = rw (cut_last, cut_last-Lacks e h.1) (ground arith)

pub cut_last-slash : (x e : List ℕ) → Lacks b'/' e → cut_last (x ++ b'/' ∷ e) ≡ some (x, e)
unfolding cut_last
cut_last-slash [] e h = rw (cut_last, cut_last-Lacks e h) (ground arith)
cut_last-slash (c ∷ x) e h = rw (cut_last, cut_last-slash x e h) refl

pub slash_injective :
    (x e y f : List ℕ)
    → Lacks b'/' e
    → Lacks b'/' f
    → x ++ b'/' ∷ e ≡ y ++ b'/' ∷ f
    → (x ≡ y) × (e ≡ f)
slash_injective x e y f he hf p =
    let q : (x, e) ≡ (y, f) =
      some_inj.0 (sym (cut_last-slash x e he) ∙ ap cut_last p ∙ cut_last-slash y f hf) in
    (ap (λ z. z.0) q, ap (λ z. z.1) q)

abbrev AllNonempty : List (List ℕ) → Type 0
AllNonempty [] = Unit {0}
AllNonempty (e ∷ es) = (same e [] ≡ false) × AllNonempty es

push-AllNonempty :
    (r : Bool) (st : List (List ℕ)) (e : List ℕ) → AllNonempty st → AllNonempty (push r st e)
unfolding push same
push-AllNonempty r st [] h = h
push-AllNonempty true [] (c ∷ e) h = ground arith
push-AllNonempty false [] (c ∷ e) h = ground arith
push-AllNonempty r (top ∷ st) (c ∷ e) h = ground arith

push_all-AllNonempty :
    (r : Bool) (st es : List (List ℕ)) → AllNonempty st → AllNonempty (push_all r st es)
unfolding push_all
push_all-AllNonempty r st [] h = h
push_all-AllNonempty r st (e ∷ es) h =
    push_all-AllNonempty r (push r st e) es (push-AllNonempty r st e h)

render-ne-nil : (r : Bool) (st : List (List ℕ)) → AllNonempty st → same (render r st) [] ≡ false
unfolding render same
render-ne-nil true [] h = refl
render-ne-nil false [] h = refl
render-ne-nil true (e ∷ []) h = refl
render-ne-nil false (e ∷ []) h = h.0
render-ne-nil r (e ∷ f ∷ st) h = slash-ne-nil (render r (f ∷ st)) e

-- Joining to a last element that is there gives a path.
pub join_path-ne-nil : (a b : List ℕ) → same b [] ≡ false → same (join_path (a ∷ b ∷ [])) [] ≡ false
unfolding join_path clean joined same
join_path-ne-nil a b h =
    let there : same (joined (a ∷ b ∷ [])) [] ≡ false = elim (Bool-cases (same a [])) [
      | inl e ↦ rw (joined, e, joined_last b h) h
      | inr e ↦ rw (joined_more a (b ∷ []) b e h (joined_last b h)) (slash-ne-nil a b)
    ] in
    let p : List ℕ = joined (a ∷ b ∷ []) in
    rw (join_path, there)
      (render-ne-nil (is_rooted p) (push_all (is_rooted p) [] (elements p))
        (push_all-AllNonempty (is_rooted p) [] (elements p) tt))

render_last :
    (r : Bool) (st : List (List ℕ)) (e : List ℕ)
    → (render r (e ∷ st) ≡ e) ⊎ ((x : List ℕ) × (render r (e ∷ st) ≡ x ++ b'/' ∷ e))
unfolding render
render_last true [] e = inr ([], refl)
render_last false [] e = inl refl
render_last r (f ∷ st) e = inr (render r (f ∷ st), refl)

-- A plain element that is joined to a directory comes last.
pub join_path_last :
    (root e : List ℕ)
    → same root [] ≡ false
    → IsPlain e
    → (join_path (root ∷ e ∷ []) ≡ e) ⊎ ((x : List ℕ) × (join_path (root ∷ e ∷ []) ≡ x ++ b'/' ∷ e))
unfolding join_path clean elements push_all
join_path_last root e h p =
    let both : elements (root ++ b'/' ∷ e) ≡ elements root ++ (e ∷ []) =
      elements_from-slash [] root e ∙ rw (elements_from-Lacks [] e p.no_slash) refl in
    let stack : push_all (is_rooted root) [] (elements (root ++ b'/' ∷ e)) ≡ e ∷ stack_of root =
      ap (push_all (is_rooted root) []) both
      ∙ push_all-append (is_rooted root) [] (elements root) (e ∷ [])
      ∙ push-IsPlain (is_rooted root) (stack_of root) e p in
    rw
      (
        join_path,
        joined_more root (e ∷ []) e h p.not_empty (joined_last e p.not_empty),
        slash-ne-nil root e,
        clean,
        is_rooted-append root (b'/' ∷ e) h,
        stack,
      )
      (render_last (is_rooted root) (stack_of root) e)
