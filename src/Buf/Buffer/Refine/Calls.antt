-- ===== src/Buf/Buffer/Refine/Calls.antt =====
-- Sequences of calls.
use qtfra.Common.{ℕ, ◌≡◌, List, [], ◌∷◌, refl, ap, ◌∙◌}
use qtfra.Common.Outcomes.{Outcome, returns, ◌>>=◌}
use qtfra.Buf.Buffer.{Buffer}
use qtfra.Buf.Buffer.Valid.{IsValid}
use qtfra.Buf.Buffer.Pipe.{
  Pipe, Op, writes, writes_string, writes_byte, reads, reads_byte, discards, peeks, Reply, fails,
  gives, accept, yield,
}
use qtfra.Buf.Buffer.Pipe
use qtfra.Buf.Buffer.Refine.{view, call, Fits, Does}
use qtfra.Buf.Buffer.Refine.Writes.{write-Does, write_string-Does, write_byte-Does}
use qtfra.Buf.Buffer.Refine.Reads.{read-Does, read_byte-Does, discard-Does, peek-Does}

-- One call: on a well-formed buffer, a method returns what the abstract buffer returns, leaves a
-- well-formed buffer whose view is the abstract buffer's, and never panics.
pub call-refines :
    (op : Op) {b : Buffer}
    → IsValid b
    → Fits b.size op
    → Does b.size (call op b) (Pipe.step op (view b))
call-refines (writes bs) v f = write-Does bs v f
call-refines (writes_string s) v f = write_string-Does s v f
call-refines (writes_byte x) v f = write_byte-Does x v
call-refines (reads k) v f = read-Does k v
call-refines reads_byte v f = read_byte-Does v
call-refines (discards n) v f = discard-Does n v f
call-refines (peeks n) v f = peek-Does n v f

-- A sequence of calls, with the replies in order.
unfoldable pub calls : List Op → Buffer → Outcome (List Reply × Buffer)
calls [] b = returns ([], b)
calls (op ∷ ops) b = do
  first ← call op b
  others ← calls ops first.1
  returns (first.0 ∷ others.0, others.1)

abbrev pub AllFit : ℕ → List Op → Type 0
AllFit size [] = Unit
AllFit size (op ∷ ops) = Fits size op × AllFit size ops

-- Any sequence of reads, writes, discards and peeks on a well-formed buffer returns what the abstract
-- buffer returns, call by call, and ends in a well-formed buffer with the abstract buffer's view; no
-- call panics. The sums of the size and each argument must fit an int.
pub calls-refine :
    (ops : List Op) {b : Buffer}
    → IsValid b
    → AllFit b.size ops
    → let (replies, p) = Pipe.run ops (view b) in
      (b' : Buffer) × (calls ops b ≡ returns (replies, b')) × IsValid b' × (view b' ≡ p)
unfolding calls Pipe.run
calls-refine [] {b} v f = (b, refl, v, refl)
calls-refine (op ∷ ops) {b} v f =
    let (b', done, v', same, size) = call-refines op v f.0 in
    let f' : AllFit b'.size ops = rw size f.1 in
    let (last, rest, w, end) = calls-refine ops v' f' in
    (last, rw (done, rest, same), w, end ∙ ap (λ q. (Pipe.run ops q).1) same)
