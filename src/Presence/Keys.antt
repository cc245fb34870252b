-- ===== src/Presence/Keys.antt =====
-- The keys of `visible_tags` for a reader whose name has no NUL.
use mvd_edge_agent.Prelude.{
  ◌≡◌, ◌≢◌, refl, ap, sym, ◌∙◌, true, false, not, some, [], ◌∷◌, ◌++◌, append_assoc, arith, length,
  drop, All, Text, text_eq,
}
use mvd_edge_agent.Presence.{starts_with, tag_key, after_nul, epc_from_key, is_skipped}

abbrev pub HasNoNul : Text → Type 0
HasNoNul = All (λ c. c ≢ 0)

text_eq-append_left : (s a b : Text) → text_eq (s ++ a) (s ++ b) ≡ text_eq a b
unfolding text_eq
text_eq-append_left [] a b = refl
text_eq-append_left (c ∷ s) a b = ground (arith, text_eq-append_left s a b)

after_nul-append : (s t : Text) → HasNoNul s → after_nul (s ++ 0 ∷ t) ≡ some t
unfolding after_nul
after_nul-append [] t h = refl
after_nul-append (c ∷ s) t h = ground (arith, after_nul-append s t h.1)

starts_with-append : (s t : Text) → starts_with s (s ++ t) ≡ true
unfolding starts_with
starts_with-append [] t = refl
starts_with-append (c ∷ s) t = ground (arith, starts_with-append s t)

starts_with_split : (s t : Text) → starts_with s t ≡ true → t ≡ s ++ drop (length s) t
unfolding starts_with
starts_with_split [] t h = refl
starts_with_split (a ∷ s) [] h = cc
starts_with_split (a ∷ s) (b ∷ t) h = ground (arith, starts_with_split s t)

module _ (reader : Text) where
  abbrev pub key_of : Text → Text
  key_of epc = tag_key epc (some reader)

  -- Two tags have one key exactly if they are one tag.
  pub text_eq-key_of : (a b : Text) → text_eq (key_of a) (key_of b) ≡ text_eq a b
  unfolding tag_key text_eq
  text_eq-key_of a b = text_eq-append_left reader (0 ∷ a) (0 ∷ b) ∙ ground arith

  -- A reader's own keys are not skipped.
  pub is_skipped-key_of : (epc : Text) → is_skipped (some reader) (key_of epc) ≡ false
  unfolding tag_key
  is_skipped-key_of epc = ap not (
      ap (starts_with (reader ++ 0 ∷ [])) (sym (append_assoc reader (0 ∷ []) epc))
      ∙ starts_with-append (reader ++ 0 ∷ []) epc)

  -- The tag is read back from its key.
  pub epc_from_key-key_of : HasNoNul reader → (epc : Text) → epc_from_key (key_of epc) ≡ epc
  unfolding epc_from_key tag_key
  epc_from_key-key_of h epc = rw (after_nul-append reader epc h, epc_from_key)

  -- A key that is not skipped is the key of the tag that is read from it.
  pub key_of-epc_from_key :
      HasNoNul reader
      → (key : Text) → is_skipped (some reader) key ≡ false
      → key_of (epc_from_key key) ≡ key
  key_of-epc_from_key h key seen =
      let own : starts_with (reader ++ 0 ∷ []) key ≡ true = ground arith in
      let rest = drop (length (reader ++ 0 ∷ [])) key in
      let split : key ≡ key_of rest =
        unfold tag_key in
        starts_with_split (reader ++ 0 ∷ []) key own ∙ append_assoc reader (0 ∷ []) rest in
      ap (λ (k : Text). key_of (epc_from_key k)) split
      ∙ ap key_of (epc_from_key-key_of h rest)
      ∙ sym split
