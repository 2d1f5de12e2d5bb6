-- ===== src/Common/Words.antt =====
-- Lines of words: `strings.Fields` gives back the words that were joined by a blank.
use Prim.Native.Char.{Char, code}
use text.Mathlib.TextLemmas.{nil-append, cons-append}
use forks_seaweedfs_csi_driv.Common.{
  ℕ, String, ◌<>◌, ◌≡◌, ◌≢◌, refl, ap, ◌∙◌, Bool, true, false, ◌||◌, not, List, [], ◌∷◌, All, arith,
}
use forks_seaweedfs_csi_driv.Common.Text.{is_space, fields, split_when, drop_empty, any_char, join}

pub not_or : (a b : Bool) → not (a || b) ≡ true → (a ≡ false) × (not b ≡ true)
not_or a b h = ground arith

module _ (p : ℕ → Bool) where
  -- No character passes the test.
  abbrev pub Lacks : String → Type 0
  Lacks w = not (any_char p w) ≡ true

  split_when-word :
      (w rest : String) (space : Char)
      → p (code space) ≡ true
      → Lacks w
      → split_when p (w <> String.◌∷◌ space rest) ≡ w ∷ split_when p rest
  split_when-word String.[] rest space h k = rw (nil-append, h)
  split_when-word (String.◌∷◌ c w) rest space h k =
      let (plain, others) = not_or (p (code c)) (any_char p w) k in
      rw (cons-append, plain, split_when-word w rest space h others)

  pub split_when-last : (w : String) → Lacks w → split_when p w ≡ w ∷ []
  split_when-last String.[] k = refl
  split_when-last (String.◌∷◌ c w) k =
      let (plain, others) = not_or (p (code c)) (any_char p w) k in
      rw (plain, split_when-last w others)

  pub split_when-join :
      (space : Char) (w : String) (ws : List String)
      → p (code space) ≡ true
      → All Lacks (w ∷ ws)
      → split_when p (join (String.◌∷◌ space String.[]) (w ∷ ws)) ≡ w ∷ ws
  split_when-join space w [] h (k, ks) = split_when-last w k
  split_when-join space w (v ∷ ws) h (k, ks) =
      rw (cons-append, nil-append)
        (split_when-word w (join (String.◌∷◌ space String.[]) (v ∷ ws)) space h k
          ∙ ap (◌∷◌ w) (split_when-join space v ws h ks))

-- A word of a line: not empty, and with no white space.
abbrev pub IsWord : String → Type 0
IsWord w = Lacks is_space w × (w ≢ "")

words_lack : (ws : List String) → All IsWord ws → All (Lacks is_space) ws
words_lack [] h = tt
words_lack (w ∷ ws) (h, hs) = (h.0, words_lack ws hs)

drop_empty-words : (ws : List String) → All IsWord ws → drop_empty ws ≡ ws
drop_empty-words [] h = refl
drop_empty-words (String.[] ∷ ws) (h, hs) = absurd (h.1 refl)
drop_empty-words (String.◌∷◌ c w ∷ ws) (h, hs) = ap (◌∷◌ (String.◌∷◌ c w)) (drop_empty-words ws hs)

pub fields-join :
    (w : String) (ws : List String) → All IsWord (w ∷ ws) → fields (join " " (w ∷ ws)) ≡ w ∷ ws
fields-join w ws h =
    ap drop_empty (split_when-join is_space " " w ws refl (words_lack (w ∷ ws) h))
    ∙ drop_empty-words (w ∷ ws) h
