-- ===== src/Streams/Laws.antt =====
-- What writes that succeed leave in a writer.
use marmot_cli.Common.{
  ◌≡◌, refl, List, [], ◌∷◌, ◌++◌, append_assoc, Option, none, some, Bytes, ok, ◌∙◌, ap,
}
use marmot_cli.Streams.{Writer, write, write_to}

write_to_ok :
    (w : Writer) (faults : List (Option Bytes)) (bs : Bytes)
    → (write_to w faults bs).1 ≡ ok tt
    → (write_to w faults bs).0.written ≡ w.written ++ bs
unfolding write_to
write_to_ok w [] bs h = refl
write_to_ok w (none ∷ fs) bs h = refl
write_to_ok w (some e ∷ fs) bs h = cc

pub write_ok :
    (w : Writer) (bs : Bytes) → (write w bs).1 ≡ ok tt → (write w bs).0.written ≡ w.written ++ bs
unfolding write
write_ok w bs h = write_to_ok w w.faults bs h

-- Two writes that succeed.
pub write-write_ok :
    (w : Writer) (one two : Bytes)
    → (write w one).1 ≡ ok tt
    → (write (write w one).0 two).1 ≡ ok tt
    → (write (write w one).0 two).0.written ≡ w.written ++ (one ++ two)
write-write_ok w one two h k =
    write_ok (write w one).0 two k
    ∙ ap (λ x. x ++ two) (write_ok w one h)
    ∙ append_assoc w.written one two
