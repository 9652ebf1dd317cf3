-- ===== src/Interpreter/Runs.antt =====
-- How `run_for` and `run_until` relate.
use mathlib.Core.Path.{subst}
use metajit_cpp.Ir.{Block}
use metajit_cpp.Interpreter.Machine.{
  Machine, Host, Event, none_event, exit_event, enter_block, is_exit, same_event, step, run_for,
  run_until,
}
use metajit_cpp.Base.{
  ℕ, zero, suc, ◌+◌, Bool, true, false, ◌||◌, Option, some, List, ◌≡◌, refl, sym, ap, ◌∙◌, ◌>>=◌,
  >>=-eq-some, some_eq, arith,
}

exits : (e : Event) → (same_event e exit_event || is_exit e) ≡ is_exit e
unfolding same_event is_exit
exits none_event = refl
exits exit_event = refl
exits enter_block = refl

module _ (host : Host) (blocks : List Block) where
  -- The rest of a run after a step, by whether it exits.
  abbrev rest_of : Bool → Machine × Event → Option (Machine × Event) → Option (Machine × Event)
  rest_of b st more = elim b [ true ↦ some st | false ↦ more ]

  not_quiet :
      (st : Machine × Event) (m : Machine)
      → some st ≡ some (m, none_event)
      → is_exit st.1 ≡ true
      → ⊥
  unfolding is_exit
  not_quiet st m h e =
      let q : none_event ≡ st.1 = sym (ap (λ (z : Machine × Event). z.1) (some_eq h)) in
      let r : is_exit none_event ≡ true = ap is_exit q ∙ e in cc

  add_rest :
      (b : Bool) (i j : ℕ) (st : Machine × Event) (m' : Machine)
      → is_exit st.1 ≡ b
      → (run_for host blocks i st.0 ≡ some (m', none_event)
          → run_for host blocks (i + j) st.0 ≡ run_for host blocks j m')
      → rest_of b st (run_for host blocks i st.0) ≡ some (m', none_event)
      → rest_of b st (run_for host blocks (i + j) st.0) ≡ run_for host blocks j m'
  add_rest true i j st m' e f h = absurd (not_quiet st m' h e)
  add_rest false i j st m' e f h = f h

  -- If `run_for(i)` ends without an exit, then running for `i + j` steps is running for `j` steps
  -- from where it ended.
  pub run_for-add :
      (i j : ℕ) (m m' : Machine)
      → run_for host blocks i m ≡ some (m', none_event)
      → run_for host blocks (i + j) m ≡ run_for host blocks j m'
  unfolding run_for
  run_for-add zero j m m' h =
      let e : 0 + j ≡ j = omega arith in
      let q : m ≡ m' = ap (λ (z : Machine × Event). z.0) (some_eq h) in rw (e, q) refl
  run_for-add (suc i) j m m' h =
      let e : suc i + j ≡ suc (i + j) = omega arith in
      let (st, es, g) = >>=-eq-some (step host blocks m) _ h in
      let more : rest_of (is_exit st.1) st (run_for host blocks (i + j) st.0)
          ≡ run_for host blocks j m' =
        add_rest (is_exit st.1) i j st m' refl (run_for-add i j st.0 m') g in
      subst (λ n. run_for host blocks n m ≡ run_for host blocks j m') (sym e)
        (ap
            (λ (o : Option (Machine × Event)).
              o >>= λ z. rest_of (is_exit z.1) z (run_for host blocks (i + j) z.0))
            es
          ∙ more)

  exit_rest :
      (b : Bool) (st s : Machine × Event) (more more' : Option (Machine × Event))
      → is_exit st.1 ≡ b
      → (more ≡ some s → (more' ≡ some s) × (is_exit s.1 ≡ true))
      → rest_of b st more ≡ some s
      → (rest_of b st more' ≡ some s) × (is_exit s.1 ≡ true)
  exit_rest true st s more more' e f h =
      (h, subst (λ (z : Machine × Event). is_exit z.1 ≡ true) (some_eq h) e)
  exit_rest false st s more more' e f h = f h

  -- If `run`, which is `run_until(Exit)`, ends within `fuel` steps, then `run_for(fuel)` ends in
  -- the same state and with the same event, which is the exit.
  pub run_until-run_for :
      (fuel : ℕ) (m : Machine) (s : Machine × Event)
      → run_until host blocks fuel exit_event m ≡ some s
      → (run_for host blocks fuel m ≡ some s) × (is_exit s.1 ≡ true)
  unfolding run_until run_for
  run_until-run_for zero m s h = cc
  run_until-run_for (suc fuel) m s h =
      let (st, es, g) = >>=-eq-some (step host blocks m) _ h in
      let g' : rest_of (is_exit st.1) st (run_until host blocks fuel exit_event st.0) ≡ some s =
        subst (λ b. rest_of b st (run_until host blocks fuel exit_event st.0) ≡ some s) (exits st.1)
          g in
      let (r, x) =
        exit_rest (is_exit st.1) st s _ (run_for host blocks fuel st.0) refl
          (run_until-run_for fuel st.0 s) g' in
      (
        ap
              (λ (o : Option (Machine × Event)).
                o >>= λ z. rest_of (is_exit z.1) z (run_for host blocks fuel z.0))
              es
            ∙ r,
        x,
      )

  until_rest :
      (b : Bool) (st s : Machine × Event) (more more' : Option (Machine × Event))
      → (more ≡ some s → more' ≡ some s)
      → rest_of b st more ≡ some s
      → rest_of b st more' ≡ some s
  until_rest true st s more more' f h = h
  until_rest false st s more more' f h = f h

  -- If `run_for(steps)` ends with the exit, then `run`, given as many steps, returns, in the same
  -- state.
  pub run_for-run_until :
      (fuel : ℕ) (m : Machine) (s : Machine × Event)
      → run_for host blocks fuel m ≡ some s
      → is_exit s.1 ≡ true
      → run_until host blocks fuel exit_event m ≡ some s
  unfolding run_until run_for is_exit
  run_for-run_until zero m s h x =
      let q : is_exit none_event ≡ true =
        subst (λ (z : Machine × Event). is_exit z.1 ≡ true) (sym (some_eq h)) x in
      cc
  run_for-run_until (suc fuel) m s h x =
      let (st, es, g) = >>=-eq-some (step host blocks m) _ h in
      let r =
        until_rest (is_exit st.1) st s (run_for host blocks fuel st.0)
          (run_until host blocks fuel exit_event st.0) (λ q. run_for-run_until fuel st.0 s q x) g in
      ap
        (λ (o : Option (Machine × Event)). o >>= λ z.
          rest_of (same_event z.1 exit_event || is_exit z.1) z
            (run_until host blocks fuel exit_event z.0))
        es
      ∙ subst (λ b. rest_of b st (run_until host blocks fuel exit_event st.0) ≡ some s)
          (sym (exits st.1)) r
