-- ===== src/Client/Expressions.antt =====
-- What an expression that a user types asks of the server.
use Prim.Native.Char.{code}
use Prim.Native.String.{◌++◌ as ◌<>◌}
use package.text.Mathlib.TextLemmas.{nil-append, cons-append}
use pnyxdb.Base.{
  ℕ, ◌==◌, ◌≡◌, ap, ◌∙◌, String, Bool, true, false, Option, some, lookup, if◌then◌else◌, Bool-cases,
  inl, inr, ◌⊎◌, refl, [], ◌∷◌,
}
use pnyxdb.Consensus.Operation.{Op}
use pnyxdb.Server.{Transaction}
use pnyxdb.Client.{
  Reply, reply, refused, ended, panicked, text, problem, answer, Remote, Library, split_n,
  split2args, cli_map, Command, generic2, contains, Client, transaction, submitted,
  process_generic2, process_contains, perform, run, run_parts, run_command, submit_args,
  contains_args, or_empty, two_args, shown,
}

-- Whether a space is in the string.
unfoldable pub has_space : String → Bool
has_space String.[] = false
has_space (String.◌∷◌ c s) = let rest = has_space s in if code c == 32 then true else rest

space_lem : (t : String) → (" " <> t) ≡ String.◌∷◌ " " t
space_lem t = cons-append " " String.[] t ∙ ap (λ (u : String). String.◌∷◌ " " u) (nil-append t)

-- A word, a space and the rest.
split_n-word : (s t : String) → has_space s ≡ false → split_n (s <> (" " <> t)) ≡ (s, some t)
unfolding split_n has_space
split_n-word String.[] t h = ap split_n (nil-append (" " <> t) ∙ space_lem t)
split_n-word (String.◌∷◌ c s) t h = elim (Bool-cases (code c == 32)) [
  | inl e ↦ cc (rw e at h)
  | inr e ↦
      let ih = split_n-word s t (rw e at h) in
      ap split_n (cons-append c s (" " <> t))
      ∙ rw e (ap (λ (r : String × Option String). (String.◌∷◌ c r.0, r.1)) ih)
]

split2args-word : (s t : String) → has_space s ≡ false → split2args (s <> (" " <> t)) ≡ some (s, t)
unfolding split2args two_args
split2args-word s t h = ap two_args (split_n-word s t h)

Reply-cases :
    {A : Type 0} (r : Reply A) → ((a : A) × (r ≡ reply a)) ⊎ ((e : String) × (r ≡ refused e))
Reply-cases (reply a) = inl (a, refl)
Reply-cases (refused e) = inr (e, refl)

module _ (lib : Library) {W : Type 0} (remote : Remote W) where
  open lib use {to_upper, bytes_of, deadline, is_zero, five_seconds}

  -- For a command's name in any case, in which there is no space: the name, a space and an argument
  -- run the command on the argument.
  pub run-command :
      (now : ℕ) (name arg : String) (command : Command) (c : Client lib remote) (w : W)
      → has_space name ≡ false
      → lookup (to_upper name) cli_map ≡ some command
      → run lib remote now (name <> (" " <> arg)) c w ≡ perform lib remote now command arg c w
  unfolding run run_parts or_empty run_command
  run-command now name arg command c w word known =
      ap (run_parts lib remote now c w) (split_n-word name arg word)
      ∙ ap (λ (o : Option Command). run_command lib remote now o arg c w) known

  -- A command that submits, a key without a space and a value, which may have spaces: the server
  -- gets one transaction, with the client's policy, no requirement, the deadline of now and the
  -- timeout, or of five seconds if that is zero, and one operation, the one of the command, on that
  -- key and with the bytes of that value. The command then prints the identifier of the receipt, or
  -- ends with the error that the server answers.
  pub run-submits :
      (now : ℕ) (name word key value : String) (op : Op) (c : Client lib remote) (w : W)
      → has_space name ≡ false
      → lookup (to_upper name) cli_map ≡ some (generic2 word op)
      → has_space key ≡ false
      → let expression = name <> (" " <> (key <> (" " <> value))) in
        let tx : Transaction = record {
          policy = c.policy;
          deadline = deadline now (if is_zero c.tx_timeout then five_seconds else c.tx_timeout);
          requirements = [];
          operations = record { key = key; op = op; payload = bytes_of value; metadata = [] } ∷ [];
        } in
        let r = remote.submit tx w in
        ((uuid : String) × (r.0 ≡ reply uuid)
          × (run lib remote now expression c w ≡ ended false (text uuid ∷ []) c r.1))
        ⊎ ((e : String) × (r.0 ≡ refused e)
            × (run lib remote now expression c w ≡ ended true (problem e ∷ []) c r.1))
  unfolding perform process_generic2 submit_args transaction submitted
  run-submits now name word key value op c w named known one =
      let tx = transaction lib remote now op key value c in
      let r = remote.submit tx w in
      let runs =
        run-command now name (key <> (" " <> value)) (generic2 word op) c w named known
        ∙ ap (submit_args lib remote now word op c w) (split2args-word key value one) in
      elim (Reply-cases r.0) [
        | inl (uuid, p) ↦ inl (uuid, p, runs ∙ rw (p, submitted) refl)
        | inr (e, p) ↦ inr (e, p, runs ∙ rw (p, submitted) refl)
      ]

  pub run-contains_lem :
      (now : ℕ) (name key element : String) (c : Client lib remote) (w : W)
      → has_space name ≡ false
      → lookup (to_upper name) cli_map ≡ some contains
      → has_space key ≡ false
      → run lib remote now (name <> (" " <> (key <> (" " <> element)))) c w
        ≡ shown lib remote (remote.contains key (bytes_of element) w) c w
  unfolding perform process_contains contains_args shown
  run-contains_lem now name key element c w named known one =
      run-command now name (key <> (" " <> element)) contains c w named known
      ∙ ap (contains_args lib remote c w) (split2args-word key element one)

  -- SCONTAINS of a key without a space and an element prints what the server answers, and ends the
  -- program with a nil pointer if the server answers with an error.
  pub run-contains :
      (now : ℕ) (name key element : String) (c : Client lib remote) (w : W)
      → has_space name ≡ false
      → lookup (to_upper name) cli_map ≡ some contains
      → has_space key ≡ false
      → let expression = name <> (" " <> (key <> (" " <> element))) in
        let r = remote.contains key (bytes_of element) w in
        ((b : Bool) × (r ≡ reply b)
          × (run lib remote now expression c w ≡ ended false (answer b ∷ []) c w))
        ⊎ ((e : String) × (r ≡ refused e) × (run lib remote now expression c w ≡ panicked))
  unfolding shown
  run-contains now name key element c w named known one =
      let r = remote.contains key (bytes_of element) w in
      let runs = run-contains_lem now name key element c w named known one in
      elim (Reply-cases r) [
        | inl (b, p) ↦ inl (b, p, runs ∙ rw (p, shown) refl)
        | inr (e, p) ↦ inr (e, p, runs ∙ rw (p, shown) refl)
      ]
