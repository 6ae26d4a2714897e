-- ===== src/Manifest/TreeJson.antt =====
-- A small JSON library for the tests of manifests: items as trees, printed in prefix form.
use net_chunk.Base.{
  ℕ, zero, suc, ◌≤◌, Bool, true, false, Option, none, some, List, [], ◌∷◌, ◌++◌, ◌≡◌, refl, sym, ap,
  ◌∙◌, append-nil, arith, ◌==◌, if◌then◌else◌, length, take, drop, take-append, drop-append,
  length-append, append_assoc,
}
use net_chunk.Base.Int.{ℤ, pos, negsuc}
use net_chunk.Libc.Text.{same_text_nocase}
use net_chunk.Manifest.Cjson.{Cjson, CjsonLaws, or_else}

pub data Tree : Type 0 where
  empty_object empty_array : Tree
  text : List ℕ → Tree
  number : ℤ → Tree
  truth : Bool → Tree
  field : Tree → List ℕ → Tree → Tree
  element : Tree → Tree → Tree

abbrev pub get : Tree → List ℕ → Option Tree
get (field o k v) j = or_else (get o j) (if same_text_nocase k j then some v else none)
get t j = none

abbrev pub elements : Tree → Option (List Tree)
elements empty_array = some []
elements (element a v) = elim (elements a) [ none ↦ none | some xs ↦ some (xs ++ (v ∷ [])) ]
elements t = none

abbrev pub text_of : Tree → Option (List ℕ)
text_of (text t) = some t
text_of t = none

abbrev pub number_of : Tree → Option ℤ
number_of (number z) = some z
number_of t = none

abbrev pub truth_of : Tree → Option Bool
truth_of (truth b) = some b
truth_of t = none

unfoldable pub print : Tree → List ℕ
print empty_object = 0 ∷ []
print empty_array = 1 ∷ []
print (text t) = 2 ∷ length t ∷ t
print (number (pos n)) = 3 ∷ n ∷ []
print (number (negsuc n)) = 4 ∷ n ∷ []
print (truth false) = 5 ∷ []
print (truth true) = 6 ∷ []
print (field o k v) = 7 ∷ length k ∷ (k ++ (print o ++ print v))
print (element a v) = 8 ∷ (print a ++ print v)

-- A part that stands behind another.
abbrev pub then_parse :
    Option (Tree × List ℕ) → (Tree → List ℕ → Option (Tree × List ℕ)) → Option (Tree × List ℕ)
then_parse none f = none
then_parse (some (v, rest)) f = f v rest

-- A number of characters, and these.
abbrev pub sized : List ℕ → (List ℕ → List ℕ → Option (Tree × List ℕ)) → Option (Tree × List ℕ)
sized [] f = none
sized (n ∷ s) f = f (take n s) (drop n s)

abbrev pub counted : List ℕ → (ℕ → ℤ) → Option (Tree × List ℕ)
counted [] f = none
counted (n ∷ s) f = some (number (f n), s)

-- The next item; `none` where the fuel runs out too.
unfoldable pub parse_from : ℕ → List ℕ → Option (Tree × List ℕ)
parse_from zero s = none
parse_from (suc fuel) [] = none
parse_from (suc fuel) (c ∷ s) =
    let with_field = sized s (λ k s'.
      then_parse (parse_from fuel s')
        (λ o s''. then_parse (parse_from fuel s'') (λ v rest. some (field o k v, rest)))) in
    let with_element =
      then_parse (parse_from fuel s)
        (λ a s'. then_parse (parse_from fuel s') (λ v rest. some (element a v, rest))) in
    if c == 0
    then some (empty_object, s)
    else if c == 1
    then some (empty_array, s)
    else if c == 2
    then sized s (λ t rest. some (text t, rest))
    else if c == 3
    then counted s pos
    else if c == 4
    then counted s negsuc
    else if c == 5
    then some (truth false, s)
    else if c == 6
    then some (truth true, s)
    else if c == 7
    then with_field
    else with_element

parse_from-print :
    (v : Tree) (fuel : ℕ) (rest : List ℕ)
    → length (print v) ≤ fuel
    → parse_from fuel (print v ++ rest) ≡ some (v, rest)
unfolding print parse_from
parse_from-print empty_object zero rest h = absurd (omega arith)
parse_from-print empty_object (suc fuel) rest h = refl
parse_from-print empty_array zero rest h = absurd (omega arith)
parse_from-print empty_array (suc fuel) rest h = refl
parse_from-print (text t) zero rest h = absurd (omega arith)
parse_from-print (text t) (suc fuel) rest h =
    λ i. some (text (take-append (length t) t rest refl i), drop-append (length t) t rest refl i)
parse_from-print (number (pos n)) zero rest h = absurd (omega arith)
parse_from-print (number (pos n)) (suc fuel) rest h = refl
parse_from-print (number (negsuc n)) zero rest h = absurd (omega arith)
parse_from-print (number (negsuc n)) (suc fuel) rest h = refl
parse_from-print (truth false) zero rest h = absurd (omega arith)
parse_from-print (truth false) (suc fuel) rest h = refl
parse_from-print (truth true) zero rest h = absurd (omega arith)
parse_from-print (truth true) (suc fuel) rest h = refl
parse_from-print (field o k v) zero rest h = absurd (omega arith)
parse_from-print (field o k v) (suc fuel) rest h =
    let sizes = length-append k (print o ++ print v) in
    let size = length-append (print o) (print v) in
    rw
      (
        append_assoc k (print o ++ print v) rest,
        append_assoc (print o) (print v) rest,
        take-append (length k) k (print o ++ (print v ++ rest)) refl,
        drop-append (length k) k (print o ++ (print v ++ rest)) refl,
        parse_from-print o fuel (print v ++ rest) (omega (arith, sizes, size)),
        parse_from-print v fuel rest (omega (arith, sizes, size)),
      )
      refl
parse_from-print (element a v) zero rest h = absurd (omega arith)
parse_from-print (element a v) (suc fuel) rest h =
    let size = length-append (print a) (print v) in
    rw
      (
        append_assoc (print a) (print v) rest,
        parse_from-print a fuel (print v ++ rest) (omega (arith, size)),
        parse_from-print v fuel rest (omega (arith, size)),
      )
      refl

unfoldable pub parse : List ℕ → Option Tree
parse s = elim (parse_from (length s) s) [ none ↦ none | some (v, rest) ↦ some v ]

parse-print : (v : Tree) → parse (print v) ≡ some v
unfolding parse
parse-print v =
    let e : parse_from (length (print v)) (print v) ≡ some (v, []) =
      ap (parse_from (length (print v))) (sym (append-nil (print v)))
      ∙ parse_from-print v (length (print v)) [] (omega arith) in
    rw (parse, e) refl

elements_push :
    (a : Tree) (xs : List Tree) (v : Tree)
    → elements a ≡ some xs
    → elements (element a v) ≡ some (xs ++ (v ∷ []))
elements_push a xs v e = rw e refl

-- A `double` that holds every integer.
abbrev pub tree_json : Cjson
tree_json = record {
  Item = Tree;
  Double = ℤ;
  double = λ z. z;
  truncated = λ z. z;
  object = empty_object;
  array = empty_array;
  string = text;
  number = number;
  bool = truth;
  add = field;
  push = element;
  get = get;
  string_value = text_of;
  number_value = number_of;
  bool_value = truth_of;
  elements = elements;
  print = print;
  parse = parse;
}

pub tree_laws : CjsonLaws tree_json
tree_laws = record {
  truncated-double = λ z h. refl;
  get-object = λ k. refl;
  get-add = λ o k v j. refl;
  string_value-string = λ t. refl;
  number_value-number = λ d. refl;
  bool_value-bool = λ b. refl;
  elements-array = refl;
  elements-push = elements_push;
  parse-print = λ j h. parse-print j;
}
