-- ===== src/Driver/Controller/Emptied.antt =====
-- The loop of emptyBucketChildren in pkg/driver/controllerserver.go.
use forks_seaweedfs_csi_driv.Common.{
  ℕ, zero, suc, ◌<◌, ◌≡◌, refl, ◌∙◌, sym, ap, String, Bool, true, false, Option, none, some, List,
  [], ◌∷◌, ◌++◌, ◌==◌, eq_refl, arith, member, length, length-append, All, Bool-cases, inl, inr,
}
use forks_seaweedfs_csi_driv.Common.Failure.{Failure, Result, ok, err}
use forks_seaweedfs_csi_driv.Common.Paths.{parent_of}
use forks_seaweedfs_csi_driv.Driver.Controller.Pages.{Lawful, without, paged-Splits}
use forks_seaweedfs_csi_driv.Driver.Controller.Deletion.{
  Filer, collect, has_more, is_not_found, after_delete, delete_all, after_deletes, after_page,
  empty_pages, empty_bucket_children,
}

without-cons :
    (name : String) (names xs : List String)
    → without (name ∷ names) xs ≡ without names (without (name ∷ []) xs)
without-cons name names [] = refl
without-cons name names (x ∷ xs) = ground (arith, without-cons name names xs)

without-nil : (xs : List String) → without [] xs ≡ xs
without-nil [] = refl
without-nil (x ∷ xs) = ap (◌∷◌ x) (without-nil xs)

without_tail :
    (names tail : List String) → All (λ x. member x names ≡ false) tail → without names tail ≡ tail
without_tail names [] fresh = refl
without_tail names (x ∷ tail) (f, fresh) = rw f (ap (◌∷◌ x) (without_tail names tail fresh))

without_page :
    (names page tail : List String)
    → All (λ x. member x names ≡ true) page
    → All (λ x. member x names ≡ false) tail
    → without names (page ++ tail) ≡ tail
without_page names [] tail known fresh = without_tail names tail fresh
without_page names (x ∷ page) tail (k, known) fresh =
    rw k (without_page names page tail known fresh)

All-member :
    (names : List String) (xs : List String)
    → ((x : String) → member x xs ≡ true → member x names ≡ true)
    → All (λ x. member x names ≡ true) xs
All-member names [] h = tt
All-member names (x ∷ xs) h =
    (h x (rw eq_refl refl), All-member names xs (λ y m. h y (ground (arith, m))))

named :
    (names : List String) (last : String) (saw : Bool)
    → has_more (record { names = names; last = last; saw_last = saw }) ≡ true
    → 0 < length names
unfolding has_more
named [] last saw more = cc more
named (x ∷ xs) last saw more = omega arith

module _ {F : Type 0} {filer : Filer F} {dir : String} (law : Lawful filer dir) where
  delete_all-left :
      (a : String) (names : List String) (f g : F)
      → delete_all filer dir names f ≡ (ok tt, g)
      → law.left a g ≡ without names (law.left a f)
  unfolding delete_all
  delete_all-left a [] f g e = ap (λ r. law.left a (r.1)) (sym e) ∙ sym (without-nil (law.left a f))
  delete_all-left a (name ∷ names) f g e =
      by_answer (filer.remove false dir name f) refl (λ k. delete_all-left a names k g) e
    where
      by_answer :
          (r : Option Failure × F)
          → filer.remove false dir name f ≡ r
          → ((k : F)
              → delete_all filer dir names k ≡ (ok tt, g)
              → law.left a g ≡ without names (law.left a k))
          → after_delete filer dir name (delete_all filer dir names) r ≡ (ok tt, g)
          → law.left a g ≡ without (name ∷ names) (law.left a f)
      by_answer (some x, k) answer others e = cc (ap (λ r. r.0) e)
      by_answer (none, k) answer others e =
          others k e
          ∙ ap (without names) (law.removed a name f k answer)
          ∙ sym (without-cons name names (law.left a f))

  -- The loop has come to an end: with success only if nothing is left.
  abbrev pub Emptied : Option (Result (Unit {0})) × F → Type 0
  Emptied (none, g) = ⊥
  Emptied (some (err e), g) = Unit
  Emptied (some (ok u), g) = law.left "" g ≡ []

  page_cleared :
      (a : String) (f g : F) (page : List (String × Bool)) (tail : List String)
      → law.left a f ≡ (collect page).names ++ tail
      → All (λ x. member x (collect page).names ≡ false) tail
      → delete_all filer dir (collect page).names f ≡ (ok tt, g)
      → law.left a g ≡ tail
  page_cleared a f g page tail here fresh done =
      let names = (collect page).names in
      delete_all-left a names f g done
      ∙ ap (without names) here
      ∙ without_page names names tail (All-member names names (λ x m. m)) fresh

  -- After the deletions of a page, if the rest of the loop ends well.
  deletes_end :
      (next : String → F → Option (Result (Unit {0})) × F) (a : String) (f : F)
      (page : List (String × Bool)) (tail : List String) (r : Result (Unit {0}) × F)
      → delete_all filer dir (collect page).names f ≡ r
      → law.left "" f ≡ law.left a f
      → law.left a f ≡ (collect page).names ++ tail
      → All (λ x. member x (collect page).names ≡ false) tail
      → (has_more (collect page) ≡ false → tail ≡ [])
      → (has_more (collect page) ≡ true
          → (((collect page).last == "") ≡ false) × (law.left (collect page).last f ≡ tail))
      → ((g : F)
          → has_more (collect page) ≡ true
          → law.left (collect page).last g ≡ tail
          → law.left "" g ≡ law.left (collect page).last g
          → Emptied (next (collect page).last g))
      → Emptied (after_deletes filer next (collect page) r)
  unfolding after_deletes
  deletes_end next a f page tail (err e, g) done same here fresh ends goes rest = tt
  deletes_end next a f page tail (ok u, g) done same here fresh ends goes rest =
      let p = collect page in
      let cleared : law.left "" g ≡ tail = page_cleared "" f g page tail (same ∙ here) fresh done in
      elim (Bool-cases (has_more p)) [
        | inr last ↦ rw last (cleared ∙ ends last)
        | inl more ↦
            let (set, behind) = goes more in
            let onward : law.left p.last g ≡ tail =
              delete_all-left p.last p.names f g done
              ∙ ap (without p.names) behind
              ∙ without_tail p.names tail fresh in
            rw (more, set) (rest g more onward (cleared ∙ sym onward))
      ]

  -- Once more from behind `a`, where nothing before it is left.
  pages_end :
      (fuel : ℕ) (a : String) (f : F)
      → length (law.left a f) < fuel
      → law.left "" f ≡ law.left a f
      → Emptied (empty_pages filer fuel dir a f)
  unfolding empty_pages is_not_found
  pages_end zero a f enough same = elim enough [ ]
  pages_end (suc fuel) a f enough same = page_ends (filer.entries f dir a) refl (pages_end fuel)
    where
      page_ends :
          (r : Result (List (String × Bool)))
          → filer.entries f dir a ≡ r
          → ((b : String) (g : F)
              → length (law.left b g) < fuel
              → law.left "" g ≡ law.left b g
              → Emptied (empty_pages filer fuel dir b g))
          → Emptied (after_page filer (empty_pages filer fuel dir) dir r f)
      page_ends (err e) answer again = elim (Bool-cases (is_not_found filer e)) [
        | inl gone ↦ rw gone (same ∙ law.absent a f e answer gone)
        | inr other ↦ rw other tt
      ]
      page_ends (ok page) answer again =
          let p = collect page in
          let (tail, here, fresh, ends, goes) = paged-Splits law a f page answer in
          deletes_end (empty_pages filer fuel dir) a f page tail (delete_all filer dir p.names f)
            refl same here fresh ends goes
            (λ g more onward behind.
              again p.last g
                (rw onward (
                  omega (
                    arith,
                    enough,
                    ap length here,
                    length-append p.names tail,
                    named p.names p.last p.saw_last more,
                  )))
                behind)

  -- Take a bucket of a filer that lists its children in pages, each under one name that is not empty,
  -- marks the last page, and says that a directory is not found only if no child is left; on a deletion
  -- it takes the name away and nothing else. With more fuel than the bucket has children,
  -- emptyBucketChildren comes to an end, and if it returns no error, the bucket has no child left, on
  -- however many pages they were listed.
  pub bucket-Emptied :
      (fuel : ℕ) (f : F) (buckets : String)
      → filer.bucket_dir f ≡ ok buckets
      → (parent_of dir == buckets) ≡ true
      → length (law.left "" f) < fuel
      → Emptied (empty_bucket_children filer fuel dir f)
  unfolding empty_bucket_children
  bucket-Emptied fuel f buckets known below enough =
      rw (known, empty_bucket_children) (rw below (pages_end fuel "" f enough refl))
