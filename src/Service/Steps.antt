-- ===== src/Service/Steps.antt =====
-- Calls on the repository one after the other, where the first that fails ends the call. What the
-- source awaits is done at once: no other call of the service comes in between.
use easy_mc_server.Prelude.{Bool, true, false, Option, none, some, Text, Result, ok, err, ℕ}
use easy_mc_server.Service.Records.{Failure, known, given, Event}
use easy_mc_server.Protocol.{session_unavailable}

abbrev pub M : Type 0 → Type 0 → Type 0
M S A = S → S × Result Failure A

abbrev pub after : {S A B : Type 0} → S × Result Failure A → (A → M S B) → S × Result Failure B
after (s, ok a) f = f a s
after (s, err e) f = (s, err e)

infixl 5 ◌>>=◌ ◌>>◌
abbrev pub ◌>>=◌ : {S A B : Type 0} → M S A → (A → M S B) → M S B
◌>>=◌ m f s = after (m s) f

abbrev pub ◌>>◌ : {S B : Type 0} → M S (Unit {0}) → M S B → M S B
m >> k = m >>= λ _. k

abbrev pub pure : {S A : Type 0} → A → M S A
pure a s = (s, ok a)

abbrev pub refuse : {S A : Type 0} → Failure → M S A
refuse e s = (s, err e)

-- `if (!test) return fail(e)`
abbrev pub check : {S : Type 0} → Bool → Failure → M S (Unit {0})
check true e = pure tt
check false e = refuse e

-- A read whose failure is answered with a reason of the service's own.
abbrev pub or_fail : {A : Type 0} → Failure → Result Failure A → Result Failure A
or_fail e (ok a) = ok a
or_fail e (err x) = err e

abbrev pub reading : {S A : Type 0} → Failure → (S → Result Failure A) → M S A
reading e read s = (s, or_fail e (read s))

-- What a hook answers: `false`, a refusal with a reason, or anything else.
pub data HookAnswer : Type 0 where
  said_false : HookAnswer
  refused : Text → HookAnswer
  allowed : HookAnswer

-- `callHook`, on the answer of a hook that is there.
unfoldable pub call_hook : {S : Type 0} → Option HookAnswer → M S (Unit {0})
call_hook none = pure tt
call_hook (some said_false) = refuse (known session_unavailable)
call_hook (some (refused reason)) = refuse (given reason)
call_hook (some allowed) = pure tt

-- `audit`, whose answer the service does not read.
unfoldable pub audit_with :
    {S : Type 0} → Option (Text → ℕ → Event → S → S) → Text → ℕ → Event → M S (Unit {0})
audit_with none id now event s = (s, ok tt)
audit_with (some record_event) id now event s = (record_event id now event s, ok tt)
