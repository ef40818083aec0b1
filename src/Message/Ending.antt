-- ===== src/Message/Ending.antt =====
-- The readers of internal/protocol/message.go end: they return or panic, on every message.
use go_dqlite.Prelude.{ℕ, ◌+◌, ◌≡◌, refl, ◌∙◌, inl, inr, Bool-cases, Option-cases}
use go_dqlite.Prelude.{length, leb, ltb, take, ◌==◌}
use go_dqlite.Message.State.{
  Outcome, Panic, ok, panic, stuck, Message, Action, ◌>>=◌, pure, advance,
}
use go_dqlite.Message.Get.{
  buffer_for_get, load_le, find_nul, index_nul, get_string, get_uint64, remaining, body_size,
  get_remaining,
}
use go_dqlite.Message.Put.{do_advance, pad_of}
use go_dqlite.Protocol.Constants.{
  response_failure, response_welcome, response_node, response_node_legacy, version_legacy,
}
use go_dqlite.Protocol.Response.{
  Reply, value, error, request, decode, decode_welcome, decode_node, decode_node_legacy,
  decode_node_compat,
}

-- A property of what a run returns; it may panic, and it ends.
abbrev pub Ran : {A : Type 0} → (A → Type 0) → Outcome A → Type 0
Ran P (ok a) = P a
Ran P (panic p) = Unit
Ran P stuck = ⊥

pub Ran-map :
    {A : Type 0} {P Q : A → Type 0} (o : Outcome A) → ((a : A) → P a → Q a) → Ran P o → Ran Q o
Ran-map (ok a) f h = f a h
Ran-map (panic p) f h = tt
Ran-map stuck f h = h

pub data End {A : Type 0} (P : A → Type 0) (o : Outcome A) : Type 0 where
  returned : (a : A) → o ≡ ok a → P a → End P o
  panicked : (p : Panic) → o ≡ panic p → End P o

pub Ran-cases : {A : Type 0} {P : A → Type 0} (o : Outcome A) → Ran P o → End P o
Ran-cases (ok a) h = returned a refl h
Ran-cases (panic p) h = panicked p refl
Ran-cases stuck h = absurd h

-- A reader ends, and leaves the bytes of the body as they are.
unfoldable pub IsReader : {A : Type 0} → Action A → Type 0
IsReader get = (m : Message) → Ran (λ r. (r.1).body.bytes ≡ m.body.bytes) (get m)

pub pure-IsReader : {A : Type 0} (a : A) → IsReader (pure a)
unfolding IsReader
pure-IsReader a m = refl

pub bind-IsReader :
    {A B : Type 0} (get : Action A) (f : A → Action B)
    → IsReader get
    → ((a : A) → IsReader (f a))
    → IsReader (get >>= f)
unfolding IsReader
bind-IsReader get f h g m = elim (Ran-cases (get m) (h m)) [
  | returned (a, t) e q ↦ rw (e, ◌>>=◌) (Ran-map (f a t) (λ r d. d ∙ q) (g a t))
  | panicked p e ↦ rw (e, ◌>>=◌) tt
]

buffer_for_get-IsReader : IsReader buffer_for_get
unfolding IsReader buffer_for_get
buffer_for_get-IsReader m = elim (Bool-cases (m.body.offset == body_size m)) [
  | inl e ↦ rw e tt
  | inr e ↦ rw e refl
]

load_le-IsReader : (w : ℕ) → IsReader (load_le w)
unfolding IsReader
load_le-IsReader w m = elim (Bool-cases (leb w (length (remaining m)))) [
  | inl e ↦ rw e refl
  | inr e ↦ rw e tt
]

do_advance-IsReader : (n : ℕ) → IsReader (do_advance n)
unfolding IsReader do_advance advance
do_advance-IsReader n m = refl

find_nul-IsReader : IsReader find_nul
unfolding IsReader find_nul
find_nul-IsReader m = elim (Bool-cases (ltb (length m.body.bytes) m.body.offset)) [
  | inl e ↦ rw e tt
  | inr e ↦ elim (Option-cases (index_nul (remaining m))) [
    | inl n ↦ rw (e, n) tt
    | inr (i, n) ↦ rw (e, n) refl
  ]
]

get_remaining-IsReader : IsReader get_remaining
unfolding IsReader
get_remaining-IsReader m = refl

pub get_uint64-IsReader : IsReader get_uint64
unfolding get_uint64
get_uint64-IsReader = bind-IsReader buffer_for_get _ buffer_for_get-IsReader (λ _.
    bind-IsReader (load_le 8) _ (load_le-IsReader 8)
      (λ v. bind-IsReader (do_advance 8) _ (do_advance-IsReader 8) (λ _. pure-IsReader v)))

pub get_string-IsReader : IsReader get_string
unfolding get_string
get_string-IsReader = bind-IsReader buffer_for_get _ buffer_for_get-IsReader (λ _.
    bind-IsReader find_nul _ find_nul-IsReader (λ i.
      bind-IsReader get_remaining _ get_remaining-IsReader (λ bs.
        bind-IsReader (do_advance (i + 1 + pad_of (i + 1))) _
          (do_advance-IsReader (i + 1 + pad_of (i + 1))) (λ _. pure-IsReader (take i bs)))))

failure_reply-IsReader :
    (A : Type 0)
    → IsReader
        (get_uint64 >>= λ c. get_string >>= λ d. (let r : Reply A = error (request c d) in pure r))
failure_reply-IsReader A =
    bind-IsReader get_uint64 _ get_uint64-IsReader (λ c.
      bind-IsReader get_string _ get_string-IsReader (λ d. pure-IsReader (error (request c d))))

-- A decoder ends if what it reads ends.
pub decode-IsReader :
    {A : Type 0} (expected : ℕ) (get : Action A) → IsReader get → IsReader (decode expected get)
unfolding decode IsReader
decode-IsReader expected get h m = elim (Bool-cases (m.mtype == response_failure)) [
  | inl e ↦ rw e (failure_reply-IsReader _ m)
  | inr e ↦ elim (Bool-cases (m.mtype == expected)) [
    | inl f ↦ rw (e, f) (bind-IsReader get (λ a. pure (value a)) h (λ a. pure-IsReader (value a)) m)
    | inr f ↦ rw (e, f) refl
  ]
]

pub decode_welcome-IsReader : IsReader decode_welcome
unfolding decode_welcome
decode_welcome-IsReader = decode-IsReader response_welcome get_uint64 get_uint64-IsReader

decode_node-IsReader : IsReader decode_node
unfolding decode_node
decode_node-IsReader = decode-IsReader response_node _ (
    bind-IsReader get_uint64 _ get_uint64-IsReader (λ id.
      bind-IsReader get_string _ get_string-IsReader (λ address. pure-IsReader (id, address))))

decode_node_legacy-IsReader : IsReader decode_node_legacy
unfolding decode_node_legacy
decode_node_legacy-IsReader = decode-IsReader response_node_legacy get_string get_string-IsReader

pub decode_node_compat-IsReader : (version : ℕ) → IsReader (decode_node_compat version)
unfolding decode_node_compat
decode_node_compat-IsReader version = elim (Bool-cases (version == version_legacy)) [
  | inl e ↦
      rw e (bind-IsReader decode_node_legacy _ decode_node_legacy-IsReader (λ r. pure-IsReader _))
  | inr e ↦ rw e decode_node-IsReader
]
