-- ===== src/Driver/Controller/Tests.antt =====
-- The properties of the controller at concrete inputs: a filer with one bucket, of up to two children,
-- which it lists one on a page.
use forks_seaweedfs_csi_driv.Common.{
  ◌≡◌, ◌≢◌, refl, String, Bool, true, false, none, ◌⊎◌, inl, inr, List, [], ◌∷◌, ◌++◌, ◌==◌, ◌∙◌,
  sym, ap, All, member, arith, eq_iff, if◌then◌else◌, some,
}
use mathlib.Core.Path.{subst}
use forks_seaweedfs_csi_driv.Common.Failure.{Failure, Result, ok, err}
use forks_seaweedfs_csi_driv.Common.Paths.{parent_of}
use forks_seaweedfs_csi_driv.Driver.Controller.Deletion.{
  Filer, collect, has_more, empty_bucket_children,
}
use forks_seaweedfs_csi_driv.Driver.Controller.Pages.{Listed, names_of, IsMarked, Lawful, without}
use forks_seaweedfs_csi_driv.Driver.Controller.Emptied.{Emptied, bucket-Emptied}

-- Which of the two children are there.
abbrev Children : Type 0
Children = Bool × Bool

abbrev second : Bool → List String
second true = "b" ∷ []
second false = []

abbrev both : Bool → Bool → List String
both true b = "a" ∷ second b
both false b = second b

-- What is left from the start, behind "a", and behind any other name.
abbrev left_from : Bool → Bool → Children → List String
left_from true at_a c = both c.0 c.1
left_from false true c = second c.1
left_from false false c = []

abbrev left : String → Children → List String
left after c = left_from (after == "") (after == "a") c

-- The first child, with the mark if it is the last one.
abbrev page_of : List String → Listed
page_of [] = []
page_of (x ∷ []) = (x, true) ∷ []
page_of (x ∷ y ∷ xs) = (x, false) ∷ []

abbrev without_child : String → Children → Children
without_child name c = (if name == "a" then false else c.0, if name == "b" then false else c.1)

abbrev one_bucket : Filer Children
one_bucket = record {
  bucket_dir = λ c. ok "/buckets";
  entries = λ c dir after. ok (page_of (left after c));
  remove = λ ignore dir name c. (none, without_child name c);
  forget = λ id c. (none, c);
  not_found = "no entry is found in filer store";
}

-- Two pages are listed and deleted.
two_pages :
    empty_bucket_children one_bucket 3 "/buckets/b" (true, true) ≡ (some (ok tt), (false, false))
unfolding empty_bucket_children parent_of collect has_more
two_pages = refl

abbrev listed : Result Listed → Listed
listed (ok page) = page
listed (err e) = []

abbrev IsPage : List String → Listed → Type 0
IsPage xs page =
    (tail : List String) × (xs ≡ names_of page ++ tail)
    × All (λ e. e.0 ≢ "") page
    × All (λ x. member x (names_of page) ≡ false) tail

first_child : (p q : Bool) (c : Children) → IsPage (left_from p q c) (page_of (left_from p q c))
first_child true q (true, true) = ("b" ∷ [], refl, (λ e. cc, tt), (refl, tt))
first_child true q (true, false) = ([], refl, (λ e. cc, tt), tt)
first_child true q (false, true) = ([], refl, (λ e. cc, tt), tt)
first_child true q (false, false) = ([], refl, tt, tt)
first_child false true (a, true) = ([], refl, (λ e. cc, tt), tt)
first_child false true (a, false) = ([], refl, tt, tt)
first_child false false c = ([], refl, tt, tt)

end_of_page :
    (xs : List String) → (page_of xs ≡ []) ⊎ IsMarked (page_of xs) → xs ≡ names_of (page_of xs)
end_of_page [] h = refl
end_of_page (x ∷ []) h = refl
end_of_page (x ∷ y ∷ xs) (inl e) = cc
end_of_page (x ∷ y ∷ xs) (inr (name, inl e)) = cc
end_of_page (x ∷ y ∷ xs) (inr (name, inr m)) = absurd m

-- A page without the mark is one name, with more behind it.
abbrev HasMore : List String → Listed → String → Type 0
HasMore xs front name = (y : String) × (ys : List String) × (xs ≡ name ∷ y ∷ ys) × (front ≡ [])

page_of-HasMore :
    (xs : List String) (front : Listed) (name : String)
    → page_of xs ≡ front ++ (name, false) ∷ []
    → HasMore xs front name
page_of-HasMore [] [] name e = cc
page_of-HasMore [] (d ∷ front) name e = cc
page_of-HasMore (x ∷ []) [] name e = cc
page_of-HasMore (x ∷ []) (d ∷ []) name e = cc
page_of-HasMore (x ∷ []) (d ∷ d' ∷ front) name e = cc
page_of-HasMore (x ∷ y ∷ xs) [] name e =
    let same : x ≡ name = cc in (y, xs, ap (λ n. n ∷ y ∷ xs) same, refl)
page_of-HasMore (x ∷ y ∷ xs) (d ∷ []) name e = cc
page_of-HasMore (x ∷ y ∷ xs) (d ∷ d' ∷ front) name e = cc

second_child :
    (p q : Bool) (c : Children) (name y : String) (ys : List String)
    → left_from p q c ≡ name ∷ y ∷ ys
    → y ∷ ys ≡ left name c
second_child true q (true, true) name y ys e =
    let same : "a" ≡ name = cc in
    let rest : y ∷ ys ≡ "b" ∷ [] = cc in subst (λ n. y ∷ ys ≡ left n (true, true)) same rest
second_child true q (true, false) name y ys e = cc
second_child true q (false, true) name y ys e = cc
second_child true q (false, false) name y ys e = cc
second_child false true (a, true) name y ys e = cc
second_child false true (a, false) name y ys e = cc
second_child false false c name y ys e = cc

next_child :
    (after name : String) (c : Children) (front : Listed)
    → page_of (left after c) ≡ front ++ (name, false) ∷ []
    → left after c ≡ names_of front ++ name ∷ left name c
next_child after name c front e =
    let (y, ys, here, bare) = page_of-HasMore (left after c) front name e in
    rw bare (here ∙ ap (λ r. name ∷ r) (second_child _ _ c name y ys here))

taken_away :
    (p q : Bool) (c : Children) (name : String)
    → left_from p q (without_child name c) ≡ without (name ∷ []) (left_from p q c)
taken_away true q (true, true) name =
    ground (arith, eq_iff name "a", eq_iff name "b", eq_iff "a" name, eq_iff "b" name)
taken_away true q (true, false) name =
    ground (arith, eq_iff name "a", eq_iff name "b", eq_iff "a" name, eq_iff "b" name)
taken_away true q (false, true) name =
    ground (arith, eq_iff name "a", eq_iff name "b", eq_iff "a" name, eq_iff "b" name)
taken_away true q (false, false) name = ground arith
taken_away false true (a, true) name = ground (arith, eq_iff name "b", eq_iff "b" name)
taken_away false true (a, false) name = ground arith
taken_away false false c name = refl

no_error : {A : Type 0} {B : Type 0} {page : A} {e : Failure} → ok page ≡ err e → B
no_error answer = cc answer

abbrev one_bucket_lawful : Lawful one_bucket "/buckets/b"
one_bucket_lawful = record {
  left = left;
  paged = λ after c page answer.
      subst (IsPage (left after c)) (ap listed answer) (first_child (after == "") (after == "a") c);
  ended = λ after c page answer last.
      let same : page_of (left after c) ≡ page = ap listed answer in
      end_of_page (left after c) (subst (λ p. (p ≡ []) ⊎ IsMarked p) (sym same) last)
      ∙ ap names_of same;
  behind = λ after name c front answer unmarked. next_child after name c front (ap listed answer);
  removed = λ after name c g answer.
      ap (λ r. left after (r.1)) (sym answer) ∙ taken_away (after == "") (after == "a") c name;
  absent = λ after c e answer gone. no_error answer;
}

in_buckets : (parent_of "/buckets/b" == "/buckets") ≡ true
unfolding parent_of
in_buckets = refl

bucket-Emptied_example :
    Emptied one_bucket_lawful (empty_bucket_children one_bucket 3 "/buckets/b" (true, true))
bucket-Emptied_example =
    bucket-Emptied one_bucket_lawful 3 (true, true) "/buckets" refl in_buckets (omega arith)
