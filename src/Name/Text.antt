-- ===== src/Name/Text.antt =====
-- Names as text and as lists of labels: what the printer's split, strip and filter do to a name that
-- is written without a final dot.
use ddns.Prelude.{ℕ, ◌≡◌, refl, ap, ◌∙◌, arith, false}
use ddns.Prelude.{List, [], ◌∷◌, ◌++◌, All}
use ddns.Name.Defs.{Name, dot, join, contains, name_eq, strip_dot, split_dot, labels_of}
use ddns.Name.Spells.{IsLabel}

-- The text of a list of labels; the root is written as a dot.
unfoldable pub display : List Name → Name
display [] = dot ∷ []
display (l ∷ ls) = join (l ∷ ls)

-- A name that the printer takes as it is: labels between dots, or the root.
pub record IsName (name : Name) : Type 0 where
  pub labels : List Name
  pub each : All IsLabel labels
  pub shown : name ≡ display labels

pub split_dot_one : (l : Name) → contains l dot ≡ false → split_dot l ≡ l ∷ []
unfolding split_dot
split_dot_one [] h = refl
split_dot_one (c ∷ cs) h = ground (arith, split_dot_one cs)

split_dot_more :
    (l rest : Name) → contains l dot ≡ false → split_dot (l ++ dot ∷ rest) ≡ l ∷ split_dot rest
unfolding split_dot
split_dot_more [] rest h = refl
split_dot_more (c ∷ cs) rest h = ground (arith, split_dot_more cs rest)

pub split_dot-join :
    (l : Name) (ls : List Name) → All IsLabel (l ∷ ls) → split_dot (join (l ∷ ls)) ≡ l ∷ ls
unfolding join
split_dot-join l [] (h, hs) = split_dot_one l h.dotless
split_dot-join l (m ∷ ms) (h, hs) =
    split_dot_more l (join (m ∷ ms)) h.dotless ∙ ap (λ t. l ∷ t) (split_dot-join m ms hs)

pub labels_of_lem : (ls : List Name) → All IsLabel ls → labels_of ls ≡ ls
unfolding labels_of
labels_of_lem [] h = refl
labels_of_lem ([] ∷ ls) (h, hs) = absurd (omega (arith, h.filled))
labels_of_lem ((c ∷ cs) ∷ ls) (h, hs) = ap (λ t. (c ∷ cs) ∷ t) (labels_of_lem ls hs)

strip_dot_one : (l : Name) → contains l dot ≡ false → strip_dot l ≡ l
unfolding strip_dot
strip_dot_one [] h = refl
strip_dot_one (c ∷ []) h = ground arith
strip_dot_one (c ∷ d ∷ cs) h = ground (arith, strip_dot_one (d ∷ cs))

strip_dot-append :
    (xs : Name) (y : ℕ) (ys : Name) → strip_dot (xs ++ y ∷ ys) ≡ xs ++ strip_dot (y ∷ ys)
unfolding strip_dot
strip_dot-append [] y ys = refl
strip_dot-append (x ∷ []) y ys = refl
strip_dot-append (x ∷ w ∷ xs) y ys = ap (λ t. x ∷ t) (strip_dot-append (w ∷ xs) y ys)

-- A label of the list begins the text.
pub join_head :
    (c : ℕ) (cs : Name) (ls : List Name) → (rest : Name) × (join ((c ∷ cs) ∷ ls) ≡ c ∷ rest)
unfolding join
join_head c cs [] = (cs, refl)
join_head c cs (m ∷ ms) = (cs ++ dot ∷ join (m ∷ ms), refl)

strip_dot-dot :
    (l : Name) (c : ℕ) (text : Name)
    → strip_dot (c ∷ text) ≡ c ∷ text
    → strip_dot (l ++ dot ∷ c ∷ text) ≡ l ++ dot ∷ c ∷ text
strip_dot-dot l c text h =
    strip_dot-append l dot (c ∷ text) ∙ (unfold strip_dot in ap (λ t. l ++ dot ∷ t) h)

join_more : (l m : Name) (ms : List Name) → join (l ∷ m ∷ ms) ≡ l ++ dot ∷ join (m ∷ ms)
unfolding join
join_more l m ms = refl

pub strip_dot-join :
    (l : Name) (ls : List Name) → All IsLabel (l ∷ ls) → strip_dot (join (l ∷ ls)) ≡ join (l ∷ ls)
strip_dot-join l [] (h, hs) = unfold join in strip_dot_one l h.dotless
strip_dot-join l ([] ∷ ms) (h, (hm, hs)) = absurd (omega (arith, hm.filled))
strip_dot-join l ((c ∷ cs) ∷ ms) (h, hs) =
    let (text, e) = join_head c cs ms in
    let ih = strip_dot-join (c ∷ cs) ms hs in
    rw (join_more l (c ∷ cs) ms, e) (strip_dot-dot l c text (rw e at ih))

-- The text of a name with labels is neither the root nor empty.
pub join-ne-root :
    (l : Name) (ls : List Name)
    → All IsLabel (l ∷ ls)
    → (name_eq (join (l ∷ ls)) (dot ∷ []) ≡ false) × (name_eq (join (l ∷ ls)) [] ≡ false)
join-ne-root [] ls (h, hs) = absurd (omega (arith, h.filled))
join-ne-root (c ∷ cs) ls (h, hs) =
    let (rest, e) = join_head c cs ls in
    let free = h.dotless in rw e (unfold name_eq in (ground arith, refl))
