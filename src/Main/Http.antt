-- ===== src/Main/Http.antt =====
-- src/main.c: process_rb_http_options, for a handler of librbhttp that is not in the repository.
use rb_monitor.Prelude.{
  ℕ, suc, ◌-◌, ◌≡◌, refl, ap, sym, ◌∙◌, false, List, [], ◌∷◌, ◌++◌, length, take, ltb, arith, inl,
  inr, Bool-cases, if◌then◌else◌,
}
use rb_monitor.Prelude.Int.{ℤ, pos, negsuc, nonzero}
use rb_monitor.Prelude.Text.{Text, codes}
use rb_monitor.Prelude.Text.Decimal.{decimal_ℤ, length-decimal}
use rb_monitor.Config.{Config, HttpMode, no_mode, normal_mode, chunked_mode}
use rb_monitor.Snmp.Numbers.{Spells, HasRoom, taken-Spells}

-- The number that http_mode has: 0 at first, RB_HTTP_NORMAL_MODE 0, and CHUNKED_MODE of librbhttp.
abbrev pub mode_number : ℤ → HttpMode → ℤ
mode_number chunked no_mode = pos 0
mode_number chunked normal_mode = pos 0
mode_number chunked chunked_mode = chunked

-- The array of keys and of what they point to.
abbrev pub http_opts : ℤ → Config → List (Text × ℤ)
http_opts chunked c =
    (codes "HTTP_MAX_TOTAL_CONNECTIONS", c.http_max_total_connections)
    ∷ (codes "HTTP_TIMEOUT", c.http_timeout)
    ∷ (codes "HTTP_CONNTTIMEOUT", c.http_connttimeout)
    ∷ (codes "HTTP_VERBOSE", c.http_verbose)
    ∷ (codes "RB_HTTP_MAX_MESSAGES", c.rb_http_max_messages)
    ∷ (codes "RB_HTTP_MODE", mode_number chunked c.http_mode)
    ∷ []

-- `set_opt key value` is what rb_http_handler_set_opt does to the handler; what it returns is logged
-- only. `bufsiz` is BUFSIZ.
module _ {ℓ} {Handler : Type ℓ} (set_opt : Text → Text → Handler → Handler) (bufsiz : ℕ) where
  -- snprintf writes what there is room for, and returns the length of the whole text.
  unfoldable pub set_http_opt : Text × ℤ → Handler → Handler
  set_http_opt (option_key, value) handler =
      if ltb bufsiz (length (decimal_ℤ value))
      then handler
      else set_opt option_key (take (bufsiz - 1) (decimal_ℤ value)) handler

  unfoldable pub set_http_opts : List (Text × ℤ) → Handler → Handler
  unfolding set_http_opt
  set_http_opts [] handler = handler
  set_http_opts (opt ∷ rest) handler = set_http_opts rest (set_http_opt opt handler)

  unfoldable pub process_rb_http_options : ℤ → Config → Handler → Handler
  unfolding set_http_opts
  process_rb_http_options chunked c handler =
      let set = set_http_opts (http_opts chunked c) handler in
      if nonzero c.http_insecure then set_opt (codes "HTTP_INSECURE") (codes "1") set else set

  abbrev pub AllFit : List (Text × ℤ) → Type 0
  AllFit [] = Unit
  AllFit ((key, value) ∷ rest) = HasRoom bufsiz value × AllFit rest

  -- The texts have the keys of the options, and spell their values.
  abbrev pub SpellAll : List (Text × ℤ) → List (Text × Text) → Type 0
  SpellAll [] [] = Unit
  SpellAll [] (t ∷ texts) = ⊥
  SpellAll (o ∷ opts) [] = ⊥
  SpellAll ((key, value) ∷ opts) ((name, t) ∷ texts) =
      (key ≡ name) × Spells value t × SpellAll opts texts

  abbrev pub set_all : List (Text × Text) → Handler → Handler
  set_all [] handler = handler
  set_all ((name, t) ∷ texts) handler = set_all texts (set_opt name t handler)

  length-decimal_ℤ : (z : ℤ) → HasRoom bufsiz z → ltb bufsiz (length (decimal_ℤ z)) ≡ false
  unfolding decimal_ℤ
  length-decimal_ℤ (pos n) (small, room) = ground (arith, length-decimal n (omega arith))
  length-decimal_ℤ (negsuc n) (small, room) = ground (arith, length-decimal (suc n) (omega arith))

  set_http_opts-SpellAll :
      (opts : List (Text × ℤ)) (handler : Handler)
      → AllFit opts
      → (texts : List (Text × Text)) × (set_http_opts opts handler ≡ set_all texts handler)
        × SpellAll opts texts
  unfolding set_http_opts set_http_opt
  set_http_opts-SpellAll [] handler h = ([], refl, tt)
  set_http_opts-SpellAll ((key, value) ∷ opts) handler (room, h) =
      let t = take (bufsiz - 1) (decimal_ℤ value) in
      let (texts, same, spelled) = set_http_opts-SpellAll opts (set_opt key t handler) h in
      (
        (key, t) ∷ texts,
        rw (length-decimal_ℤ value room) same,
        (refl, taken-Spells bufsiz value room, spelled),
      )

  set_all-append :
      (texts more : List (Text × Text)) (handler : Handler)
      → set_all (texts ++ more) handler ≡ set_all more (set_all texts handler)
  set_all-append [] more handler = refl
  set_all-append ((name, t) ∷ texts) more handler =
      set_all-append texts more (set_opt name t handler)

  abbrev pub insecure : ℤ → List (Text × Text)
  insecure z = if nonzero z then (codes "HTTP_INSECURE", codes "1") ∷ [] else []

  set_insecure :
      (z : ℤ) (handler : Handler)
      → (if nonzero z then set_opt (codes "HTTP_INSECURE") (codes "1") handler else handler)
        ≡ set_all (insecure z) handler
  set_insecure z handler = elim (Bool-cases (nonzero z)) [ inl e ↦ rw e refl | inr e ↦ rw e refl ]

  -- Let the numbers of the configuration have at most 20 digits, as those of 64 bits, and BUFSIZ be
  -- more than 21. Then process_rb_http_options leaves no option out: the handler is given each of the
  -- six in turn, with a text that is not cut and reads back as the number that is configured, and
  -- then HTTP_INSECURE exactly if it is configured.
  pub process_rb_http_options_complete :
      (chunked : ℤ) (c : Config) (handler : Handler)
      → AllFit (http_opts chunked c)
      → (texts : List (Text × Text)) × (process_rb_http_options chunked c handler
          ≡ set_all (texts ++ insecure c.http_insecure) handler)
        × SpellAll (http_opts chunked c) texts
  unfolding process_rb_http_options
  process_rb_http_options_complete chunked c handler h =
      let opts = http_opts chunked c in
      let (texts, same, spelled) = set_http_opts-SpellAll opts handler h in
      (
        texts,
        set_insecure c.http_insecure (set_http_opts opts handler)
            ∙ ap (set_all (insecure c.http_insecure)) same
            ∙ sym (set_all-append texts (insecure c.http_insecure) handler),
        spelled,
      )
