-- ===== src/State.antt =====
-- Commands over any state. A command crashes where the C code has no defined behaviour, and a loop
-- that takes fuel may run out of it. The block layer's commands, over its own state, are in Fs.

pub data Outcome {ℓ} (S : Type 0) (A : Type ℓ) : Type ℓ where
  done : A → S → Outcome S A
  crash : Outcome S A
  no_fuel : Outcome S A

abbrev pub Cmd {ℓ} : Type 0 → Type ℓ → Type ℓ
Cmd S A = S → Outcome S A

abbrev pub return {ℓ} : {S : Type 0} {A : Type ℓ} → A → Cmd S A
return = done

abbrev pub bind {ℓ κ} :
    {S : Type 0} {A : Type ℓ} {B : Type κ} → Outcome S A → (A → Cmd S B) → Outcome S B
bind (done a s) k = k a s
bind crash k = crash
bind no_fuel k = no_fuel

infixl 5 ◌>>=◌ ◌>>◌
abbrev pub ◌>>=◌ {ℓ κ} : {S : Type 0} {A : Type ℓ} {B : Type κ} → Cmd S A → (A → Cmd S B) → Cmd S B
m >>= k = λ s. bind (m s) k

abbrev pub ◌>>◌ {ℓ κ} : {S : Type 0} {A : Type ℓ} {B : Type κ} → Cmd S A → Cmd S B → Cmd S B
m >> n = m >>= λ _. n

abbrev pub get : {S : Type 0} → Cmd S S
get s = done s s

abbrev pub put : {S : Type 0} → S → Cmd S (Unit {0})
put s' s = done tt s'
