-- ===== src/Message/State.antt =====
-- The state of a message (Message in internal/protocol/message.go, buffer in buffer.go), and the
-- actions on it: a method may return, panic, or never return.
use go_dqlite.Prelude.{ℕ, ◌+◌, ◌*◌, ◌%◌, List}
pub use go_dqlite.Outcome.{
  Panic, index, short_message, no_string, unexpected_ordinal, unsupported_value,
  too_many_parameters, not_positive, not_aligned, empty_body, unknown_type, buffer_size,
  closed_channel, negative_read,
}
pub use go_dqlite.Outcome.{Outcome, ok, panic, stuck}
use go_dqlite.Prelude.{replicate, ◌==◌, if◌then◌else◌}

pub record Buffer : Type 0 where
  pub bytes : List ℕ
  pub offset : ℕ

pub record Message : Type 0 where
  pub words : ℕ
  pub mtype : ℕ
  pub schema : ℕ
  pub extra : ℕ
  pub header : List ℕ
  pub body : Buffer

abbrev pub word_size : ℕ
word_size = 8

abbrev pub word_bits : ℕ
word_bits = word_size * 8

abbrev pub header_size : ℕ
header_size = word_size

abbrev pub Action : Type 0 → Type 0
Action A = Message → Outcome (A × Message)

infixl 5 ◌>>=◌ ◌>>◌
abbrev pub ◌>>=◌ : {A B : Type 0} → Action A → (A → Action B) → Action B
◌>>=◌ m f s = elim (m s) [ ok (a, s') ↦ f a s' | panic p ↦ panic p | stuck ↦ stuck ]

abbrev pub ◌>>◌ : {B : Type 0} → Action (Unit {0}) → Action B → Action B
m >> k = m >>= λ _. k

abbrev pub pure : {A : Type 0} → A → Action A
pure a s = ok (a, s)

abbrev pub fail : {A : Type 0} → Panic → Action A
fail p s = panic p

-- buffer.Advance, on the body of the message.
unfoldable pub advance : ℕ → Message → Message
advance amount m = record m { body = record m.body { offset = m.body.offset + amount } }

-- Message.reset. The bytes of the body stay.
unfoldable pub reset : Action (Unit {0})
reset m = ok (
  tt,
  record {
    words = 0;
    mtype = 0;
    schema = 0;
    extra = 0;
    header = replicate header_size 0;
    body = record m.body { offset = 0 };
  },
)

-- Message.Init, on a message of any content.
unfoldable pub init : ℕ → Action (Unit {0})
unfolding reset
init size m =
    if size % word_size == 0
    then reset (record m {
      header = replicate header_size 0;
      body = record m.body { bytes = replicate size 0 };
    })
    else panic buffer_size
