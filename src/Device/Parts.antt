-- ===== src/Device/Parts.antt =====
-- `parseControls`, `parseInputs` and `parseFeedbacks` of core/src/device_info.cpp against the trees of
-- their documents.
use sc_api.Common.{
  ℕ, suc, ◌+◌, ◌<◌, refl, ap, List, [], ◌∷◌, ◌++◌, some, length, Bool-cases, inl, inr,
  if◌then◌else◌,
}
use sc_api.Types.{codes}
use sc_api.Bson.Value.{Value}
use sc_api.Bson.Reader.Seek.{same_key}
use sc_api.Bson.Reader.Cross.{IsCleanValue}
use sc_api.Bson.Reader.Walk.{string_value-text}
use sc_api.Device.Names.{
  control_type_from_string, feedback_type_from_string, input_role_from_string,
  input_type_from_string,
}
use sc_api.Device.{
  Control, Input, Feedback, control_body, controls_body, input_body, inputs_body, feedback_body,
  feedbacks_body, new_control, new_input, new_feedback, variable_ref, loop,
}
use sc_api.Device.Each.{Follows, fold, loop-fold, inside-Leaves, stays-Leaves, bind-Leaves}

-- What an element does to a control, an input and a feedback.
unfoldable pub control_effect : List ℕ → Value → ℕ → Control → Control
control_effect k (Value.str t) at c =
    if same_key k (codes "name")
    then record c { name = t }
    else if same_key k (codes "role")
    then record c { type = control_type_from_string t }
    else if same_key k (codes "parent")
    then record c { parent_id = t }
    else c
control_effect k v at c = c

unfoldable pub input_effect : ℕ → List ℕ → Value → ℕ → Input → Input
input_effect device k (Value.str t) at c =
    if same_key k (codes "variable")
    then record c { variable = variable_ref device t }
    else if same_key k (codes "role")
    then record c { role = input_role_from_string t }
    else if same_key k (codes "type")
    then record c { type = input_type_from_string t }
    else if same_key k (codes "control")
    then record c { control = t }
    else c
input_effect device k v at c = c

unfoldable pub feedback_effect : List ℕ → Value → ℕ → Feedback → Feedback
feedback_effect k (Value.str t) at c =
    if same_key k (codes "control")
    then record c { control = t }
    else if same_key k (codes "type")
    then record c { type = feedback_type_from_string t }
    else c
feedback_effect k (Value.doc sub) at c = record c { parameters = some at }
feedback_effect k v at c = c

-- What an element adds to the list: an object for a document.
unfoldable pub controls_effect : List ℕ → Value → ℕ → List Control → List Control
unfolding fold control_effect
controls_effect k (Value.doc sub) at cs =
    cs ++ fold control_effect sub (at + 4) (new_control k) ∷ []
controls_effect k v at cs = cs

unfoldable pub inputs_effect : ℕ → List ℕ → Value → ℕ → List Input → List Input
unfolding fold input_effect
inputs_effect device k (Value.doc sub) at cs =
    cs ++ fold (input_effect device) sub (at + 4) (new_input k) ∷ []
inputs_effect device k v at cs = cs

unfoldable pub feedbacks_effect : List ℕ → Value → ℕ → List Feedback → List Feedback
unfolding fold feedback_effect
feedbacks_effect k (Value.doc sub) at cs =
    cs ++ fold feedback_effect sub (at + 4) (new_feedback k) ∷ []
feedbacks_effect k v at cs = cs

control_body-Follows : (depth : ℕ) → Follows control_body control_effect depth
unfolding control_body control_effect
control_body-Follows depth k (Value.str t) fs pre post pos r c x clean =
    let text = string_value-text t k fs pre post pos depth r x in
    elim (Bool-cases (same_key k (codes "name"))) [
      | inl e0 ↦ stays-Leaves x (simp (x.key, e0, text))
      | inr e0 ↦ elim (Bool-cases (same_key k (codes "role"))) [
        | inl e1 ↦ stays-Leaves x (simp (x.key, e0, e1, text))
        | inr e1 ↦ elim (Bool-cases (same_key k (codes "parent"))) [
          | inl e2 ↦ stays-Leaves x (simp (x.key, e0, e1, e2, text))
          | inr e2 ↦ stays-Leaves x (simp (x.key, e0, e1, e2))
        ]
      ]
    ]
control_body-Follows depth k (Value.doc sub) fs pre post pos r c x clean = stays-Leaves x refl
control_body-Follows depth k (Value.boolean b) fs pre post pos r c x clean = stays-Leaves x refl
control_body-Follows depth k (Value.double b) fs pre post pos r c x clean = stays-Leaves x refl
control_body-Follows depth k (Value.i32 b) fs pre post pos r c x clean = stays-Leaves x refl
control_body-Follows depth k (Value.i64 b) fs pre post pos r c x clean = stays-Leaves x refl
control_body-Follows depth k Value.null fs pre post pos r c x clean = stays-Leaves x refl
control_body-Follows depth k (Value.binary b t) fs pre post pos r c x clean = stays-Leaves x refl

pub controls_body-Follows : (depth : ℕ) → depth < 16 → Follows controls_body controls_effect depth
unfolding controls_body controls_effect IsCleanValue
controls_body-Follows depth h k (Value.doc sub) fs pre post pos r cs x clean =
    let at = pos + (length k + 2) in
    let one =
      inside-Leaves (λ b. loop control_body b (new_control x.after.key)) sub fs k pre post pos depth
        r (fold control_effect sub (at + 4) (new_control x.after.key)) x h
        (λ front back b begins.
          loop-fold control_body control_effect sub front back (at + 4) (suc depth) b
            (new_control x.after.key) (control_body-Follows (suc depth)) begins clean) in
    bind-Leaves (λ c. cs ++ c ∷ []) k (Value.doc sub) fs pre post pos depth x.after one
      (ap (λ key. cs ++ fold control_effect sub (at + 4) (new_control key) ∷ []) x.key)
controls_body-Follows depth h k (Value.str t) fs pre post pos r cs x clean = stays-Leaves x refl
controls_body-Follows depth h k (Value.boolean b) fs pre post pos r cs x clean = stays-Leaves x refl
controls_body-Follows depth h k (Value.double b) fs pre post pos r cs x clean = stays-Leaves x refl
controls_body-Follows depth h k (Value.i32 b) fs pre post pos r cs x clean = stays-Leaves x refl
controls_body-Follows depth h k (Value.i64 b) fs pre post pos r cs x clean = stays-Leaves x refl
controls_body-Follows depth h k Value.null fs pre post pos r cs x clean = stays-Leaves x refl
controls_body-Follows depth h k (Value.binary b t) fs pre post pos r cs x clean =
    stays-Leaves x refl

input_body-Follows : (device depth : ℕ) → Follows (input_body device) (input_effect device) depth
unfolding input_body input_effect
input_body-Follows device depth k (Value.str t) fs pre post pos r c x clean =
    let text = string_value-text t k fs pre post pos depth r x in
    elim (Bool-cases (same_key k (codes "variable"))) [
      | inl e0 ↦ stays-Leaves x (simp (x.key, e0, text))
      | inr e0 ↦ elim (Bool-cases (same_key k (codes "role"))) [
        | inl e1 ↦ stays-Leaves x (simp (x.key, e0, e1, text))
        | inr e1 ↦ elim (Bool-cases (same_key k (codes "type"))) [
          | inl e2 ↦ stays-Leaves x (simp (x.key, e0, e1, e2, text))
          | inr e2 ↦ elim (Bool-cases (same_key k (codes "control"))) [
            | inl e3 ↦ stays-Leaves x (simp (x.key, e0, e1, e2, e3, text))
            | inr e3 ↦ stays-Leaves x (simp (x.key, e0, e1, e2, e3))
          ]
        ]
      ]
    ]
input_body-Follows device depth k (Value.doc sub) fs pre post pos r c x clean = stays-Leaves x refl
input_body-Follows device depth k (Value.boolean b) fs pre post pos r c x clean =
    stays-Leaves x refl
input_body-Follows device depth k (Value.double b) fs pre post pos r c x clean = stays-Leaves x refl
input_body-Follows device depth k (Value.i32 b) fs pre post pos r c x clean = stays-Leaves x refl
input_body-Follows device depth k (Value.i64 b) fs pre post pos r c x clean = stays-Leaves x refl
input_body-Follows device depth k Value.null fs pre post pos r c x clean = stays-Leaves x refl
input_body-Follows device depth k (Value.binary b t) fs pre post pos r c x clean =
    stays-Leaves x refl

feedback_body-Follows : (depth : ℕ) → Follows feedback_body feedback_effect depth
unfolding feedback_body feedback_effect
feedback_body-Follows depth k (Value.str t) fs pre post pos r c x clean =
    let text = string_value-text t k fs pre post pos depth r x in
    elim (Bool-cases (same_key k (codes "control"))) [
      | inl e0 ↦ stays-Leaves x (simp (x.key, e0, text))
      | inr e0 ↦ elim (Bool-cases (same_key k (codes "type"))) [
        | inl e1 ↦ stays-Leaves x (simp (x.key, e0, e1, text))
        | inr e1 ↦ stays-Leaves x (simp (x.key, e0, e1))
      ]
    ]
feedback_body-Follows depth k (Value.doc sub) fs pre post pos r c x clean =
    stays-Leaves x (ap (λ (o : ℕ). some (x.after, record c { parameters = some o })) x.at)
feedback_body-Follows depth k (Value.boolean b) fs pre post pos r c x clean = stays-Leaves x refl
feedback_body-Follows depth k (Value.double b) fs pre post pos r c x clean = stays-Leaves x refl
feedback_body-Follows depth k (Value.i32 b) fs pre post pos r c x clean = stays-Leaves x refl
feedback_body-Follows depth k (Value.i64 b) fs pre post pos r c x clean = stays-Leaves x refl
feedback_body-Follows depth k Value.null fs pre post pos r c x clean = stays-Leaves x refl
feedback_body-Follows depth k (Value.binary b t) fs pre post pos r c x clean = stays-Leaves x refl

pub inputs_body-Follows :
    (device depth : ℕ) → depth < 16 → Follows (inputs_body device) (inputs_effect device) depth
unfolding inputs_body inputs_effect IsCleanValue
inputs_body-Follows device depth h k (Value.doc sub) fs pre post pos r cs x clean =
    let at = pos + (length k + 2) in
    let one =
      inside-Leaves (λ b. loop (input_body device) b (new_input x.after.key)) sub fs k pre post pos
        depth r (fold (input_effect device) sub (at + 4) (new_input x.after.key)) x h
        (λ front back b begins.
          loop-fold (input_body device) (input_effect device) sub front back (at + 4) (suc depth) b
            (new_input x.after.key) (input_body-Follows device (suc depth)) begins clean) in
    bind-Leaves (λ c. cs ++ c ∷ []) k (Value.doc sub) fs pre post pos depth x.after one
      (ap (λ key. cs ++ fold (input_effect device) sub (at + 4) (new_input key) ∷ []) x.key)
inputs_body-Follows device depth h k (Value.str t) fs pre post pos r cs x clean =
    stays-Leaves x refl
inputs_body-Follows device depth h k (Value.boolean b) fs pre post pos r cs x clean =
    stays-Leaves x refl
inputs_body-Follows device depth h k (Value.double b) fs pre post pos r cs x clean =
    stays-Leaves x refl
inputs_body-Follows device depth h k (Value.i32 b) fs pre post pos r cs x clean =
    stays-Leaves x refl
inputs_body-Follows device depth h k (Value.i64 b) fs pre post pos r cs x clean =
    stays-Leaves x refl
inputs_body-Follows device depth h k Value.null fs pre post pos r cs x clean = stays-Leaves x refl
inputs_body-Follows device depth h k (Value.binary b t) fs pre post pos r cs x clean =
    stays-Leaves x refl

pub feedbacks_body-Follows :
    (depth : ℕ) → depth < 16 → Follows feedbacks_body feedbacks_effect depth
unfolding feedbacks_body feedbacks_effect IsCleanValue
feedbacks_body-Follows depth h k (Value.doc sub) fs pre post pos r cs x clean =
    let at = pos + (length k + 2) in
    let one =
      inside-Leaves (λ b. loop feedback_body b (new_feedback x.after.key)) sub fs k pre post pos
        depth r (fold feedback_effect sub (at + 4) (new_feedback x.after.key)) x h
        (λ front back b begins.
          loop-fold feedback_body feedback_effect sub front back (at + 4) (suc depth) b
            (new_feedback x.after.key) (feedback_body-Follows (suc depth)) begins clean) in
    bind-Leaves (λ c. cs ++ c ∷ []) k (Value.doc sub) fs pre post pos depth x.after one
      (ap (λ key. cs ++ fold feedback_effect sub (at + 4) (new_feedback key) ∷ []) x.key)
feedbacks_body-Follows depth h k (Value.str t) fs pre post pos r cs x clean = stays-Leaves x refl
feedbacks_body-Follows depth h k (Value.boolean b) fs pre post pos r cs x clean =
    stays-Leaves x refl
feedbacks_body-Follows depth h k (Value.double b) fs pre post pos r cs x clean = stays-Leaves x refl
feedbacks_body-Follows depth h k (Value.i32 b) fs pre post pos r cs x clean = stays-Leaves x refl
feedbacks_body-Follows depth h k (Value.i64 b) fs pre post pos r cs x clean = stays-Leaves x refl
feedbacks_body-Follows depth h k Value.null fs pre post pos r cs x clean = stays-Leaves x refl
feedbacks_body-Follows depth h k (Value.binary b t) fs pre post pos r cs x clean =
    stays-Leaves x refl
