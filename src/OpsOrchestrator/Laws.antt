-- ===== src/OpsOrchestrator/Laws.antt =====
-- When a command is rendered, and what an error says.
use pingora_mesh.Base.{
  ℕ, ◌≡◌, refl, String, Bool, true, false, not, none, some, List, [], ◌∷◌, All, All-map, ap, subst,
  arith, inl, inr, contains, find, find-passes, ok, err, Result-cases, Option-cases, Bool-cases,
  string_eq, Memᴰ, find-mem,
}
use pingora_mesh.Base.Text.{contains_text, replace_text}
use pingora_mesh.Json.{Value, Fields, Items, null, bool, number, string, array, object, lookup}
use pingora_mesh.OpsOrchestrator.{
  OperationTemplate, OperationValidationError, unknown_param, invalid_value, missing_value, keys,
  placeholder, first_unknown, replacement, value_text, render_param, render_params, render_command,
}

-- Every parameter is allowed.
abbrev AreAllowed : OperationTemplate → Fields → Type 0
AreAllowed template params = All (λ key. contains key template.allowed_params ≡ true) (keys params)

-- A parameter has a value that can stand in a command.
abbrev IsRenderable : (ℕ → String) → Fields → String → Type 0
IsRenderable float_text params key =
    (value : Value) × (text : String) × (lookup key params ≡ some value)
    × (replacement float_text value ≡ some text)

find-none : {A : Type 0} (p : A → Bool) (xs : List A) → find p xs ≡ none → All (λ x. p x ≡ false) xs
unfolding find
find-none p [] h = tt
find-none p (x ∷ xs) h = elim (Bool-cases (p x)) [
  | inl e ↦ absurd (cc (rw e at h))
  | inr e ↦ (e, find-none p xs (rw e at h))
]

find-All-false :
    {A : Type 0} (p : A → Bool) (xs : List A) → All (λ x. p x ≡ false) xs → find p xs ≡ none
unfolding find
find-All-false p [] h = refl
find-All-false p (x ∷ xs) (e, h) = rw e (find-All-false p xs h)

-- A value that is no text, number or truth value.
pub data IsComposite : Value → Type 0 where
  no_value : IsComposite null
  a_list : (vs : Items) → IsComposite (array vs)
  a_map : (fs : Fields) → IsComposite (object fs)

replacement-none :
    (float_text : ℕ → String) (value : Value)
    → replacement float_text value ≡ none
    → IsComposite value
replacement-none float_text null h = no_value
replacement-none float_text (bool true) h = absurd (cc h)
replacement-none float_text (bool false) h = absurd (cc h)
replacement-none float_text (number v) h = absurd (cc h)
replacement-none float_text (string s) h = absurd (cc h)
replacement-none float_text (array vs) h = a_list vs
replacement-none float_text (object fs) h = a_map fs

-- What an error says is so: an unknown parameter was given and is not allowed, a missing one is
-- allowed and was not given, an invalid one was given as something that is no text, number or truth
-- value.
pub data Explains (float_text : ℕ → String) (template : OperationTemplate) (params : Fields)
    : OperationValidationError → Type 0 where
  unknown :
      (key : String)
      → Memᴰ key (keys params)
      → contains key template.allowed_params ≡ false
      → Explains float_text template params (unknown_param key)
  missing :
      (key : String)
      → Memᴰ key template.allowed_params
      → lookup key params ≡ none
      → Explains float_text template params (missing_value key)
  invalid :
      (key : String) (value : Value)
      → Memᴰ key template.allowed_params
      → lookup key params ≡ some value
      → IsComposite value
      → Explains float_text template params (invalid_value key)

module _ (float_text : ℕ → String) where
  render_param-shown :
      (key : String) (params : Fields) (rendered : String)
      → IsRenderable float_text params key
      → (next : String) × (render_param float_text key params rendered ≡ ok next)
  unfolding render_param value_text
  render_param-shown key params rendered (value, text, found, shown) =
      elim (Bool-cases (contains_text rendered (placeholder key))) [
        | inl occurs ↦ (
          replace_text (placeholder key) text rendered,
          rw (occurs, found, shown, render_param, value_text) refl,
        )
        | inr absent ↦ (rendered, rw (absent, render_param) refl)
      ]

  render_params-total :
      (allowed : List String) (params : Fields) (rendered : String)
      → All (IsRenderable float_text params) allowed
      → (command : String) × (render_params float_text allowed params rendered ≡ ok command)
  unfolding render_params
  render_params-total [] params rendered all = (rendered, refl)
  render_params-total (key ∷ allowed) params rendered (here, all) =
      let (next, shown) = render_param-shown key params rendered here in
      let (command, done) = render_params-total allowed params next all in
      (command, rw (shown) done)

  -- A command is rendered where every parameter is allowed, and every allowed one has a value that
  -- is a text, a number or a truth value.
  pub render_command-total :
      (template : OperationTemplate) (params : Fields)
      → AreAllowed template params
      → All (IsRenderable float_text params) template.allowed_params
      → (command : String) × (render_command float_text template params ≡ ok command)
  unfolding render_command first_unknown
  render_command-total template params known all =
      let (command, done) =
        render_params-total template.allowed_params params template.command_template all in
      let none_unknown =
        find-All-false (λ key. not (contains key template.allowed_params)) (keys params)
          (All-map (keys params) (λ key h. ap not h) known) in
      (command, rw (none_unknown, render_command, first_unknown) done)

  -- A command that is rendered has been given allowed parameters only.
  pub render_command-allowed :
      (template : OperationTemplate) (params : Fields) (command : String)
      → render_command float_text template params ≡ ok command
      → AreAllowed template params
  unfolding render_command first_unknown
  render_command-allowed template params command done =
      elim (Option-cases (find (λ key. not (contains key template.allowed_params)) (keys params))) [
        | inl e ↦ All-map (keys params) (λ key h. ground (arith, h)) (find-none _ (keys params) e)
        | inr (key, e) ↦ absurd (cc (rw (e, render_command, first_unknown) at done))
      ]

  render_param-Explains :
      (template : OperationTemplate) (key : String) (params : Fields) (rendered : String)
      (e : OperationValidationError)
      → Memᴰ key template.allowed_params
      → render_param float_text key params rendered ≡ err e
      → Explains float_text template params e
  unfolding render_param value_text
  render_param-Explains template key params rendered e allowed failed =
      elim (Bool-cases (contains_text rendered (placeholder key))) [
        | inl occurs ↦
            let failed' = rw (occurs, render_param) at failed in
            elim (Option-cases (lookup key params)) [
              | inl absent ↦
                  subst (Explains float_text template params)
                    (ground (arith, rw (absent) at failed')) (missing key allowed absent)
              | inr (value, found) ↦ elim (Option-cases (replacement float_text value)) [
                | inl odd ↦
                    subst (Explains float_text template params)
                      (ground (arith, rw (found, odd) at failed'))
                      (invalid key value allowed found (replacement-none float_text value odd))
                | inr (text, shown) ↦ absurd (cc (rw (found, shown) at failed'))
              ]
            ]
        | inr absent ↦ absurd (cc (rw (absent, render_param) at failed))
      ]

  render_params-Explains :
      (template : OperationTemplate) (allowed : List String) (params : Fields) (rendered : String)
      (e : OperationValidationError)
      → ((key : String) → Memᴰ key allowed → Memᴰ key template.allowed_params)
      → render_params float_text allowed params rendered ≡ err e
      → Explains float_text template params e
  unfolding render_params
  render_params-Explains template [] params rendered e within failed = absurd (cc failed)
  render_params-Explains template (key ∷ allowed) params rendered e within failed =
      elim (Result-cases (render_param float_text key params rendered)) [
        | inl (e', refused) ↦
            subst (Explains float_text template params) (ground (arith, rw (refused) at failed)) (
              render_param-Explains template key params rendered e' (within key (Memᴰ.head refl))
                refused)
        | inr (next, shown) ↦
            render_params-Explains template allowed params next e (λ k m. within k (Memᴰ.tail m))
              (rw (shown) at failed)
      ]

  -- The error that refuses a command is true of it: an unknown parameter was given and is not allowed,
  -- a missing one is allowed and was not given, an invalid one is allowed and was given as null, an
  -- array or an object.
  pub render_command-Explains :
      (template : OperationTemplate) (params : Fields) (e : OperationValidationError)
      → render_command float_text template params ≡ err e
      → Explains float_text template params e
  unfolding render_command first_unknown
  render_command-Explains template params e failed =
      let p = λ (key : String). not (contains key template.allowed_params) in
      elim (Option-cases (find p (keys params))) [
        | inl none_unknown ↦
            render_params-Explains template template.allowed_params params template.command_template
              e (λ key m. m) (rw (none_unknown, render_command, first_unknown) at failed)
        | inr (key, found) ↦
            subst (Explains float_text template params)
              (ground (arith, rw (found, render_command, first_unknown) at failed))
              (unknown key (find-mem p (keys params) key found)
                (ground (arith, find-passes p (keys params) key found)))
      ]
