-- ===== src/Prelude/Paths/Words.antt =====
-- `path.Join` of plain words.
use go2rtc_manager.Prelude.{◌≡◌, refl, Bool, false, List, [], ◌∷◌, ◌++◌, All, arith, ◌==◌}
use go2rtc_manager.Prelude.Text.{Text, codes, text_eq, is_empty}
use go2rtc_manager.Prelude.Paths.{
  slash, push_char, split_slash, join_slash, go_up, clean_word, clean_words, is_rooted, rebuild,
  clean, join_elements, path_join,
}

abbrev pub HasNoSlash : Text → Type 0
HasNoSlash = All λ c. (c == slash) ≡ false

-- A word that `path.Clean` leaves in its place.
pub record IsWord (w : Text) : Type 0 where
  pub given : is_empty w ≡ false
  pub one : HasNoSlash w
  pub no_dot : text_eq w (codes ".") ≡ false
  pub no_dots : text_eq w (codes "..") ≡ false

split_slash-word : (w : Text) → HasNoSlash w → split_slash w ≡ w ∷ []
unfolding split_slash push_char
split_slash-word [] h = refl
split_slash-word (c ∷ w) h = rw (split_slash-word w h.1, h.0) refl

split_slash-append : (w s : Text) → HasNoSlash w → split_slash (w ++ slash ∷ s) ≡ w ∷ split_slash s
unfolding split_slash push_char
split_slash-append [] s h = refl
split_slash-append (c ∷ w) s h = rw (split_slash-append w s h.1, h.0) refl

clean_word-word :
    (rooted : Bool) (done : List Text) (w : Text) → IsWord w → clean_word rooted done w ≡ w ∷ done
unfolding clean_word
clean_word-word rooted done w h = rw (h.given, h.no_dot, h.no_dots) refl

abbrev pub between : Text → Text → Text → Text
between a b c = a ++ (slash ∷ (b ++ (slash ∷ c)))

split-between :
    (a b c : Text)
    → HasNoSlash a
    → HasNoSlash b
    → HasNoSlash c
    → split_slash (between a b c) ≡ a ∷ b ∷ c ∷ []
split-between a b c ha hb hc =
    rw
      (split_slash-append a (b ++ (slash ∷ c)) ha, split_slash-append b c hb, split_slash-word c hc)
      refl

clean_words-three :
    (a b c : Text)
    → IsWord a
    → IsWord b
    → IsWord c
    → clean_words false [] (a ∷ b ∷ c ∷ []) ≡ c ∷ b ∷ a ∷ []
unfolding clean_words
clean_words-three a b c ha hb hc =
    rw
      (
        clean_word-word false [] a ha,
        clean_word-word false (a ∷ []) b hb,
        clean_word-word false (b ∷ a ∷ []) c hc,
      )
      refl

is_rooted-between : (a b c : Text) → IsWord a → is_rooted (between a b c) ≡ false
is_rooted-between [] b c h = absurd (ground (arith, h.given))
is_rooted-between (x ∷ a) b c h = h.one.0

clean-between :
    (a b c : Text) → IsWord a → IsWord b → IsWord c → clean (between a b c) ≡ between a b c
unfolding clean rebuild join_slash
clean-between a b c ha hb hc =
    rw
      (
        is_rooted-between a b c ha,
        split-between a b c ha.one hb.one hc.one,
        clean_words-three a b c ha hb hc,
      )
      refl

pub path_join-words :
    (a b c : Text) → IsWord a → IsWord b → IsWord c → path_join (a ∷ b ∷ c ∷ []) ≡ between a b c
unfolding path_join join_elements join_slash
path_join-words [] b c ha hb hc = absurd (ground (arith, ha.given))
path_join-words (x ∷ a) b c ha hb hc = clean-between (x ∷ a) b c ha hb hc

up : Text
up = codes ".."

clean_words-up :
    (a c : Text) → IsWord a → IsWord c → clean_words false [] (a ∷ up ∷ c ∷ []) ≡ c ∷ []
unfolding clean_words up
clean_words-up a c ha hc =
    rw (clean_word-word false [] a ha, up_of a ha, clean_word-word false [] c hc) refl
  where
    up_of : (w : Text) → IsWord w → clean_word false (w ∷ []) (codes "..") ≡ []
    up_of w h = unfold clean_word go_up text_eq in rw h.no_dots refl

clean-up : (a c : Text) → IsWord a → IsWord c → clean (between a up c) ≡ c
unfolding clean rebuild join_slash up
clean-up a c ha hc =
    rw
      (
        is_rooted-between a up c ha,
        split-between a up c ha.one (refl, (refl, tt)) hc.one,
        clean_words-up a c ha hc,
      )
      refl

-- A second word ".." takes the first away.
pub path_join-up : (a c : Text) → IsWord a → IsWord c → path_join (a ∷ codes ".." ∷ c ∷ []) ≡ c
unfolding path_join join_elements join_slash up
path_join-up [] c ha hc = absurd (ground (arith, ha.given))
path_join-up (x ∷ a) c ha hc = rw (clean-up (x ∷ a) c ha hc) refl
