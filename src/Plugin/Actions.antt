-- ===== src/Plugin/Actions.antt =====
-- What the help of a plugin shows, and what running an unknown command leaves behind.
use skivvy.Base.{
  false, ◌≡◌, refl, ◌⊎◌, inl, inr, none, some, List, [], ◌∷◌, ◌++◌, arith, Str, codes, str_eq_iff,
  Bool-cases, Option-cases,
}
use skivvy.Store.Order.{lex_total}
use skivvy.Plugin.{
  Action, is_invisible, find_action, insert_action, alias_of, shown, help_text, default_action,
  execute,
}

module _ {ℓ} {F : Type ℓ} (m : List (Str × Action F)) (cmd : Str) where
  -- The help of a visible action that stands under the command or under the alias it names.
  abbrev pub ShowsVisible : Type ℓ
  ShowsVisible =
      (k : Str) × (a : Action F) × (find_action k m ≡ some a)
      × (is_invisible a ≡ false)
      × (help_text m cmd ≡ cmd ++ b' ' ∷ a.help)

  abbrev pub Refused : Type 0
  Refused =
      (help_text m cmd ≡ codes "unknown command")
      ⊎ ((help_text m cmd ≡ codes "unknown command alias") ⊎ (help_text m cmd ≡ codes "none"))

  -- `help` returns the text of an action that is not invisible, found under the command or its
  -- alias, or one of the three refusals.
  pub help_text_lem : ShowsVisible ⊎ Refused
  unfolding help_text shown
  help_text_lem = elim (Option-cases (find_action cmd m)) [
    | inl e ↦ rw (e, help_text) (inr (inl refl))
    | inr (a, e) ↦ elim (Bool-cases (is_invisible a)) [
      | inl i ↦ rw (e, help_text) (rw i (inr (inr (inr refl))))
      | inr i ↦ elim (Option-cases (alias_of a.help)) [
        | inl n ↦ rw (e, help_text) (rw (i, n) (inl (cmd, a, e, i, refl)))
        | inr (k, n) ↦ elim (Option-cases (find_action k m)) [
          | inl f ↦ rw (e, help_text) (rw (i, n) (rw (f, shown) (inr (inr (inl refl)))))
          | inr (b, f) ↦ elim (Bool-cases (is_invisible b)) [
            | inl j ↦ rw (e, help_text) (rw (i, n) (rw (f, shown) (rw j (inr (inr (inr refl))))))
            | inr j ↦ rw (e, help_text) (rw (i, n) (rw (f, shown) (rw j (inl (k, b, f, j, refl)))))
          ]
        ]
      ]
    ]
  ]

module _ {ℓ} {F : Type ℓ} where
  find-insert_action :
      (k : Str) (a : Action F) (m : List (Str × Action F))
      → find_action k m ≡ none
      → find_action k (insert_action k a m) ≡ some a
  unfolding find_action insert_action
  find-insert_action k a [] h = ground (arith, str_eq_iff k k)
  find-insert_action k a ((j, b) ∷ m) h =
      ground (arith, str_eq_iff k k, str_eq_iff j k, find-insert_action k a m, lex_total k j)

  -- Running a command that the plugin has not throws, and leaves an action without help under it: from
  -- then on `help` no longer calls it unknown.
  pub execute_unknown :
      (cmd : Str) (m : List (Str × Action F))
      → find_action cmd m ≡ none
      → ((execute cmd m).1 ≡ none)
        × (help_text m cmd ≡ codes "unknown command")
        × (help_text (execute cmd m).0 cmd ≡ cmd ++ b' ' ∷ [])
  unfolding execute help_text
  execute_unknown cmd m h = (
    rw (h, execute) refl,
    rw (h, help_text) refl,
    rw (h, execute) (rw (find-insert_action cmd default_action m h, help_text) refl),
  )
