-- ===== src/Monitors/Dependencies/Found.antt =====
-- src/rb_sensor_monitor_array.c: the position that find_monitor_pos returns.
use rb_monitor.Prelude.{
  and_true, none, sym, subst, ℕ, zero, suc, ◌+◌, ◌<◌, ◌≡◌, refl, ap, ◌∙◌, true, false, Option, some,
  List, [], ◌∷◌, ◌⊎◌, inl, inr, arith, Bool-cases, length, get_elem?, in_range_of_get_elem?,
}
use rb_monitor.Prelude.Int.{ℤ, pos, negsuc}
use mathlib.Core.Option.{some-injective}
use rb_monitor.Prelude.Text.{Text, text_eq, text_eq_iff}
use rb_monitor.Monitor.{Monitor}
use rb_monitor.Monitors.Dependencies.{same_group, is_named, find_from, find_monitor_pos}

same_group-true : (a b : Option Text) → same_group a b ≡ true → a ≡ b
unfolding same_group
same_group-true none none h = refl
same_group-true none (some g) h = cc
same_group-true (some i) none h = cc
same_group-true (some i) (some g) h = ap some (sym ((text_eq_iff g i).0 h))

same_group-same : (a b : Option Text) → a ≡ b → same_group a b ≡ true
unfolding same_group
same_group-same none none h = refl
same_group-same none (some g) h = cc
same_group-same (some i) none h = cc
same_group-same (some i) (some g) h = (text_eq_iff g i).1 (sym (some-injective i g h))

module _ {Json : Type 0} (name : Text) (group_id : Option Text) where
  -- The monitor has the name and the group, or the name and no group where none is asked for.
  abbrev pub IsNamed : Monitor Json → Type 0
  IsNamed m = (m.name ≡ name) × (m.group_id ≡ group_id)

  IsNamed-true : (m : Monitor Json) → is_named name group_id m ≡ true → IsNamed m
  unfolding is_named
  IsNamed-true m h =
      let (same_name, group) = and_true (text_eq name m.name) (same_group m.group_id group_id) h in
      (sym ((text_eq_iff name m.name).0 same_name), same_group-true m.group_id group_id group)

  IsNamed-false : (m : Monitor Json) → is_named name group_id m ≡ false → ¬ IsNamed m
  unfolding is_named
  IsNamed-false m h (same_name, group) =
      let name_true : text_eq name m.name ≡ true = (text_eq_iff name m.name).1 (sym same_name) in
      let group_true = same_group-same m.group_id group_id group in
      ground (arith, h, name_true, group_true)

  -- No monitor at a position below `n` has the name and the group.
  abbrev pub NoneBelow : ℕ → List (Monitor Json) → Type 0
  NoneBelow n monitors =
      (j : ℕ) (m : Monitor Json) → j < n → get_elem? monitors j ≡ some m → ¬ IsNamed m

  -- The position is that of the first monitor with the name and the group; or it is -1 and there
  -- is no such monitor.
  abbrev pub FirstNamed : List (Monitor Json) → ℤ → Type 0
  FirstNamed monitors (pos i) =
      (m : Monitor Json) × (get_elem? monitors i ≡ some m) × IsNamed m × NoneBelow i monitors
  FirstNamed monitors (negsuc zero) = NoneBelow (length monitors) monitors
  FirstNamed monitors (negsuc (suc k)) = ⊥

  NoneBelow-cons :
      (n : ℕ) (m : Monitor Json) (ms : List (Monitor Json))
      → ¬ IsNamed m
      → NoneBelow n ms
      → NoneBelow (suc n) (m ∷ ms)
  NoneBelow-cons n m ms e below zero m' h q =
      λ named. e (subst IsNamed (sym (some-injective m m' q)) named)
  NoneBelow-cons n m ms e below (suc j) m' h q = below j m' (omega arith) q

  -- What find_from returns, against the position in the rest of the list.
  find_from_cases :
      (i : ℕ) (ms : List (Monitor Json))
      → ((find_from i ms name group_id ≡ negsuc 0) × NoneBelow (length ms) ms)
        ⊎ ((k : ℕ) × (find_from i ms name group_id ≡ pos (i + k)) × FirstNamed ms (pos k))
  unfolding find_from
  find_from_cases i [] = inl (refl, λ j m h. elim h [ ])
  find_from_cases i (m ∷ ms) = elim (Bool-cases (is_named name group_id m)) [
    | inl e ↦
        inr (0, rw e (ap pos (omega arith)), (m, refl, IsNamed-true m e, λ j m' h. elim h [ ]))
    | inr e ↦ elim (find_from_cases (suc i) ms) [
      | inl (n, below) ↦ inl (rw e n, NoneBelow-cons (length ms) m ms (IsNamed-false m e) below)
      | inr (k, n, found) ↦ inr (
        suc k,
        rw e (n ∙ ap pos (omega arith)),
        (found.0, found.1, found.2, NoneBelow-cons k m ms (IsNamed-false m e) found.3),
      )
    ]
  ]

  -- find_monitor_pos returns the position of the first monitor with the given name and the given
  -- group, where no group is a group of its own, and -1 exactly if there is none.
  pub find_monitor_pos-FirstNamed :
      (monitors : List (Monitor Json))
      → FirstNamed monitors (find_monitor_pos monitors name group_id)
  unfolding find_monitor_pos
  find_monitor_pos-FirstNamed monitors = elim (find_from_cases 0 monitors) [
    | inl (n, below) ↦ rw n below
    | inr (k, n, found) ↦ let e : 0 + k ≡ k = omega arith in rw (n, e) found
  ]

  -- The position is -1 or one of the array.
  pub find_monitor_pos_range :
      (monitors : List (Monitor Json))
      → (find_monitor_pos monitors name group_id ≡ negsuc 0)
        ⊎ ((i : ℕ) × (find_monitor_pos monitors name group_id ≡ pos i) × (i < length monitors))
  unfolding find_monitor_pos
  find_monitor_pos_range monitors = elim (find_from_cases 0 monitors) [
    | inl (n, below) ↦ inl n
    | inr (k, n, found) ↦
        inr (k, n ∙ ap pos (omega arith), in_range_of_get_elem? monitors k found.1)
  ]
