-- ===== src/Tests/Sockets.antt =====
-- A socket whose peer has said all it will say, and one whose peer is a running enclave.
use sp1_tee.Prelude.{
  ℕ, zero, suc, ◌+◌, ◌≡◌, refl, sym, ap, List, [], ◌∷◌, ◌++◌, arith, length, take, drop, ltb,
  if◌then◌else◌,
}
use sp1_tee.Result.{ok, err}
use sp1_tee.Common.Communication.{Transport}
use sp1_tee.Common.Communication.Laws.{PipeLaws, IsLive, IsFed}
use sp1_tee.Deployment.Link.{Running, Linked, enclave_peer}
use sp1_tee.Tests.World.{small, server}
use sp1_tee.Tests.Encoding.{requests, responses}

-- What was written, and what is left to read.
abbrev pub Pipe : Type 0
Pipe = List ℕ × List ℕ

abbrev pub pipe : Transport
pipe = record {
  Raw = Pipe;
  connect = λ cid port. ok ([], []);
  write_all = λ bytes s. (ok tt, (s.0 ++ bytes, s.1));
  read_exact =
      λ n s. if ltb (length s.1) n then (err "eof", s) else (ok (take n s.1), (s.0, drop n s.1));
}

abbrev pub pipe_laws : PipeLaws pipe
pipe_laws = record {
  sent = λ s. s.0;
  pending = λ s. s.1;
  sent-write_all = λ bytes s e. refl;
  read_enough = λ n s h. ground arith;
  read_short = λ n s h. ("eof", ground arith);
  sent-read_exact = λ n s. ground arith;
}

abbrev pub pipe_live : IsLive pipe
pipe_live = record { write_ok = λ bytes s. refl }

abbrev pub pipe_fed : IsFed pipe pipe_laws
pipe_fed = record { pending-write_all = λ bytes s. refl }

abbrev pub running : Running small requests responses
running = record {
  server = server;
  driver = [];
  release = refl;
  socket = pipe;
  pipe = pipe_laws;
  live = pipe_live;
  fed = pipe_fed;
  accept = λ bytes. ([], bytes);
  accept_pending = λ bytes. refl;
  accept_sent = λ bytes. refl;
}

-- What was written, and how much was read of what the enclave answers to it.
abbrev Served : Type 0
Served = List ℕ × ℕ

abbrev peer : List ℕ → List ℕ
peer = enclave_peer small requests responses running

abbrev left : Served → List ℕ
left s = drop s.1 (peer s.0)

abbrev pub served : Transport
served = record {
  Raw = Served;
  connect = λ cid port. ok ([], 0);
  write_all = λ bytes s. (ok tt, (s.0 ++ bytes, s.1));
  read_exact = λ n s.
      if ltb (length (left s)) n
      then (err "would block", s)
      else (ok (take n (left s)), (s.0, s.1 + n));
}

drop-nil : {A : Type 0} (n : ℕ) → drop {A = A} n [] ≡ []
drop-nil zero = refl
drop-nil (suc n) = refl

drop-add : {A : Type 0} (k n : ℕ) (xs : List A) → drop (k + n) xs ≡ drop n (drop k xs)
drop-add zero n xs = let none_added : zero + n ≡ n = omega arith in rw none_added
drop-add (suc k) n [] =
    let moved : suc k + n ≡ suc (k + n) = omega arith in rw moved (sym (drop-nil n))
drop-add (suc k) n (x ∷ xs) =
    let moved : suc k + n ≡ suc (k + n) = omega arith in rw moved (drop-add k n xs)

served_laws : PipeLaws served
served_laws = record {
  sent = λ s. s.0;
  pending = left;
  sent-write_all = λ bytes s e. refl;
  read_enough = λ n s h. (ground arith, ground (arith, drop-add s.1 n (peer s.0)));
  read_short = λ n s h. ("would block", ground arith);
  sent-read_exact = λ n s. ground arith;
}

-- The host's socket leads to that enclave.
pub linked : Linked small requests responses running served
unfolding served_laws
linked = record {
  pipe = served_laws;
  live = record { write_ok = λ bytes s. refl };
  served = record {
    taken = λ s. s.1;
    served = λ s fresh. ap (λ (k : ℕ). drop k (peer s.0)) fresh;
    taken-write_all = λ bytes s. refl;
  };
  raw = ([], 0);
  connects = λ cid port. refl;
  fresh = refl;
  unread = refl;
}
