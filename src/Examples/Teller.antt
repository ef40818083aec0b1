-- ===== src/Examples/Teller.antt =====
-- A server whose answer depends on the type of the request, delivered byte by byte.
use go_dqlite.Prelude.{
  ℕ, ◌≤◌, ◌<◌, ◌≡◌, refl, arith, ◌-◌, true, false, Option, none, some, List, [], ◌∷◌, ◌++◌, length,
}
use go_dqlite.Protocol.Connection.{Connection}
use go_dqlite.Protocol.Delivery.{IsStream}
use go_dqlite.Protocol.Exchange.{IsServer}
use go_dqlite.Protocol.Keeping.{IsCounted}

-- How many connections are open, the bytes that are waiting, and the last write.
pub record Desk : Type 0 where
  pub opened : ℕ
  pub waiting : List ℕ
  pub last : List ℕ

-- The type in a header; 255 where there is none.
abbrev pub type_of : List ℕ → ℕ
type_of (_ ∷ _ ∷ _ ∷ _ ∷ t ∷ _) = t
type_of _ = 255

pub take_byte : ℕ → Desk → (Option (List ℕ) × Option ℕ) × Desk
take_byte size net = elim net.waiting [
  | [] ↦ ((some [], none), net)
  | b ∷ bs ↦ ((some (b ∷ []), none), record net { waiting = bs })
]

-- Behind each write the answer to the write before it is waiting.
abbrev pub telling : (ℕ → List ℕ) → Connection Desk ℕ
telling by_type = record {
  write =
      λ bs net. ((length bs, none), record net { waiting = by_type (type_of net.last); last = bs });
  read = take_byte;
  set_deadline = λ d net. net;
  close = λ net. (none, record net { opened = net.opened - 1 });
  is_op_error = λ e. true;
  is_timeout = λ e. false;
  is_errno = λ e. false;
  unwrap = λ e. none;
  is_eof = λ e. false;
  equals_eof = λ e. false;
}

telling-IsStream : (by_type : ℕ → List ℕ) → IsStream (telling by_type) (λ net. net.waiting)
unfolding take_byte
telling-IsStream by_type = record {
  reads = λ size net h k. one size net.opened net.last net.waiting h k;
}
  where
    one :
        (size opened : ℕ) (last waiting : List ℕ)
        → 0 < size
        → 0 < length waiting
        → (let net : Desk = record { opened = opened; waiting = waiting; last = last } in
            (bs : List ℕ) × (net' : Desk) × (take_byte size net ≡ ((some bs, none), net'))
            × (0 < length bs)
            × (length bs ≤ size)
            × (waiting ≡ bs ++ net'.waiting))
    one size opened last [] h k = absurd (omega arith)
    one size opened last (b ∷ bs) h k = (
      b ∷ [],
      record { opened = opened; waiting = bs; last = last },
      refl,
      omega arith,
      omega arith,
      refl,
    )

pub telling-IsServer :
    (by_type : ℕ → List ℕ)
    → IsServer (telling by_type) (λ net. net.waiting) (λ header body. by_type (type_of header))
telling-IsServer by_type = record {
  stream = telling-IsStream by_type;
  deadlines = λ d net. refl;
  answers = λ header body net e. (
    record net { waiting = by_type (type_of net.last); last = header },
    record net { waiting = by_type (type_of header); last = body },
    refl,
    refl,
    refl,
  );
}

pub telling-IsCounted : (by_type : ℕ → List ℕ) → IsCounted (telling by_type) (λ net. net.opened)
unfolding take_byte
telling-IsCounted by_type = record {
  writes = λ bs net. refl;
  reads = λ size net. same net.opened net.last net.waiting size;
  deadlines = λ d net. refl;
  closes = λ net. refl;
}
  where
    same :
        (opened : ℕ) (last waiting : List ℕ) (size : ℕ)
        → (let net : Desk = record { opened = opened; waiting = waiting; last = last } in
            (take_byte size net).1.opened ≡ opened)
    same opened last [] size = refl
    same opened last (b ∷ bs) size = refl
