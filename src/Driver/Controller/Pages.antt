-- ===== src/Driver/Controller/Pages.antt =====
-- The pages of a directory's children that the filer lists, and what listFilerChildrenPage of
-- pkg/driver/controllerserver.go makes of one.
use forks_seaweedfs_csi_driv.Common.{
  ◌≡◌, ◌≢◌, refl, ◌∙◌, sym, ap, String, Bool, true, false, ◌⊎◌, inl, inr, List, [], ◌∷◌, ◌++◌, ◌==◌,
  eq_iff, arith, member, All, Among, map, none, if◌then◌else◌,
}
use mathlib.Core.Path.{subst}
use mathlib.Core.List.{map-append, append_assoc, append-nil}
use forks_seaweedfs_csi_driv.Common.Failure.{Failure, ok, err}
use forks_seaweedfs_csi_driv.Driver.Controller.Deletion.{Filer, collect, has_more, is_not_found}

-- A page names children, and may say of one that the listing ends with it.
abbrev pub Listed : Type 0
Listed = List (String × Bool)

abbrev pub names_of : Listed → List String
names_of page = map (λ e. e.0) page

abbrev pub IsMarked : Listed → Type 0
IsMarked page = (name : String) × Among (name, true) page

-- The list without the names.
abbrev pub without : List String → List String → List String
without names [] = []
without names (x ∷ xs) = let rest = without names xs in if member x names then rest else x ∷ rest

-- What the code relies on of the filer, for one directory. `left a f` is what it has behind the name
-- `a`, in its order.
pub record Lawful {F : Type 0} (filer : Filer F) (dir : String) : Type 0 where
  pub left : String → F → List String
  -- A page is a first part of what is left, and no name is empty or comes again behind it.
  pub paged :
      (a : String) (f : F) (page : Listed)
      → filer.entries f dir a ≡ ok page
      → (tail : List String) × (left a f ≡ names_of page ++ tail)
        × All (λ e. e.0 ≢ "") page
        × All (λ x. member x (names_of page) ≡ false) tail
  -- An empty page, and one with the mark of the end, are all that is left.
  pub ended :
      (a : String) (f : F) (page : Listed)
      → filer.entries f dir a ≡ ok page
      → (page ≡ []) ⊎ IsMarked page
      → left a f ≡ names_of page
  -- Behind a page without the mark comes what is left behind its last name.
  pub behind :
      (a name : String) (f : F) (front : Listed)
      → filer.entries f dir a ≡ ok (front ++ (name, false) ∷ [])
      → All (λ e. e.1 ≡ false) front
      → left a f ≡ names_of front ++ name ∷ left name f
  -- The deletion of an entry takes its name away.
  pub removed :
      (a name : String) (f g : F)
      → filer.remove false dir name f ≡ (none, g)
      → left a g ≡ without (name ∷ []) (left a f)
  -- A directory that is not found has no child.
  pub absent :
      (a : String) (f : F) (e : Failure)
      → filer.entries f dir a ≡ err e
      → is_not_found filer e ≡ true
      → left a f ≡ []

cancel : (xs ys zs : List String) → xs ++ ys ≡ xs ++ zs → ys ≡ zs
cancel [] ys zs e = e
cancel (x ∷ xs) ys zs e = cancel xs ys zs (cc e)

collect-names : (page : Listed) → All (λ e. e.0 ≢ "") page → (collect page).names ≡ names_of page
unfolding collect
collect-names [] h = refl
collect-names ((name, b) ∷ page) (h, hs) = ground (arith, eq_iff name "", h, collect-names page hs)

collect-saw_last : (page : Listed) → (collect page).saw_last ≡ true → IsMarked page
unfolding collect
collect-saw_last [] h = cc
collect-saw_last ((name, true) ∷ page) h = (name, inl refl)
collect-saw_last ((name, false) ∷ page) h = let (n, m) = collect-saw_last page h in (n, inr m)

collect-last :
    (front : Listed) (name : String) (b : Bool)
    → name ≢ ""
    → (collect (front ++ (name, b) ∷ [])).last ≡ name
unfolding collect
collect-last [] name b h = refl
collect-last ((x, c) ∷ front) name b h = ground (arith, eq_iff name "", collect-last front name b h)

-- A page without the mark ends in a name.
abbrev Ending : Listed → Type 0
Ending page =
    (front : Listed) × (name : String) × (page ≡ front ++ (name, false) ∷ [])
    × All (λ e. e.1 ≡ false) front

unmarked_end :
    (e : String × Bool) (page : Listed) → (collect (e ∷ page)).saw_last ≡ false → Ending (e ∷ page)
unfolding collect
unmarked_end (name, true) page h = cc
unmarked_end (name, false) [] h = ([], name, refl, tt)
unmarked_end (name, false) (d ∷ page) h =
    let (front, last, e, unmarked) = unmarked_end d page h in
    ((name, false) ∷ front, last, ap (λ p. (name, false) ∷ p) e, (refl, unmarked))

last_filled :
    (front : Listed) (name : String) → All (λ e. e.0 ≢ "") (front ++ (name, false) ∷ []) → name ≢ ""
last_filled [] name (h, hs) = h
last_filled (e ∷ front) name (h, hs) = last_filled front name hs

marked_last :
    (names : List String) (last : String) (saw : Bool)
    → names ≢ []
    → has_more (record { names = names; last = last; saw_last = saw }) ≡ false
    → saw ≡ true
unfolding has_more
marked_last [] last saw h more = absurd (h refl)
marked_last (x ∷ names) last saw h more = ground arith

unmarked_last :
    (names : List String) (last : String) (saw : Bool)
    → has_more (record { names = names; last = last; saw_last = saw }) ≡ true
    → (names ≢ []) × (saw ≡ false)
unfolding has_more
unmarked_last [] last saw more = cc
unmarked_last (x ∷ names) last saw more = (λ e. cc e, ground arith)

-- What a page and the code's reading of it say of what is left.
abbrev pub Splits :
    {F : Type 0} {filer : Filer F} {dir : String} → Lawful filer dir → String → F → Listed → Type 0
Splits law a f page =
    (tail : List String) × (law.left a f ≡ (collect page).names ++ tail)
    × All (λ x. member x (collect page).names ≡ false) tail
    × (has_more (collect page) ≡ false → tail ≡ [])
    × (has_more (collect page) ≡ true
        → (((collect page).last == "") ≡ false) × (law.left (collect page).last f ≡ tail))

module _ {F : Type 0} {filer : Filer F} {dir : String} (law : Lawful filer dir) (a : String)
    (f : F) where
  nothing_behind :
      (page : Listed) (tail : List String)
      → filer.entries f dir a ≡ ok page
      → law.left a f ≡ names_of page ++ tail
      → (page ≡ []) ⊎ IsMarked page
      → tail ≡ []
  nothing_behind page tail answer here last =
      cancel (names_of page) tail []
        (sym here ∙ law.ended a f page answer last ∙ sym (append-nil (names_of page)))

  last_page :
      (page : Listed) (tail : List String)
      → filer.entries f dir a ≡ ok page
      → law.left a f ≡ names_of page ++ tail
      → All (λ e. e.0 ≢ "") page
      → has_more (collect page) ≡ false
      → tail ≡ []
  last_page [] tail answer here full more = nothing_behind [] tail answer here (inl refl)
  last_page (e ∷ page) tail answer here full more =
      let p = collect (e ∷ page) in
      let named : p.names ≢ [] = λ none_. cc (sym (collect-names (e ∷ page) full) ∙ none_) in
      let saw = marked_last p.names p.last p.saw_last named more in
      nothing_behind (e ∷ page) tail answer here (inr (collect-saw_last (e ∷ page) saw))

  -- The rest behind a page that ends without the mark.
  rest_behind :
      (page front : Listed) (name : String) (tail : List String)
      → page ≡ front ++ (name, false) ∷ []
      → All (λ e. e.1 ≡ false) front
      → filer.entries f dir a ≡ ok page
      → law.left a f ≡ names_of page ++ tail
      → law.left name f ≡ tail
  rest_behind page front name tail e unmarked answer here =
      let onward = law.behind a name f front (answer ∙ ap ok e) unmarked in
      let split : names_of page ++ tail ≡ names_of front ++ name ∷ tail =
        rw e (rw map-append (simp append_assoc)) in
      cc (cancel (names_of front) _ _ (sym onward ∙ here ∙ split))

  next_page :
      (page : Listed) (tail : List String)
      → filer.entries f dir a ≡ ok page
      → law.left a f ≡ names_of page ++ tail
      → All (λ e. e.0 ≢ "") page
      → has_more (collect page) ≡ true
      → (((collect page).last == "") ≡ false) × (law.left (collect page).last f ≡ tail)
  next_page [] tail answer here full more = unfold has_more collect in cc
  next_page (e ∷ page) tail answer here full more =
      let p = collect (e ∷ page) in
      let (front, name, shape, unmarked) =
        unmarked_end e page ((unmarked_last p.names p.last p.saw_last more).1) in
      let filled : name ≢ "" = last_filled front name (subst (All (λ d. d.0 ≢ "")) shape full) in
      let last : p.last ≡ name =
        ap (λ q. (collect q).last) shape ∙ collect-last front name false filled in
      (
        ground (arith, eq_iff name "", filled, last),
        rw last (rest_behind (e ∷ page) front name tail shape unmarked answer here),
      )

  pub paged-Splits : (page : Listed) → filer.entries f dir a ≡ ok page → Splits law a f page
  paged-Splits page answer =
      let (tail, here, full, fresh) = law.paged a f page answer in
      let named = collect-names page full in
      (
        tail,
        here ∙ ap (λ ns. ns ++ tail) (sym named),
        rw named fresh,
        last_page page tail answer here full,
        next_page page tail answer here full,
      )
