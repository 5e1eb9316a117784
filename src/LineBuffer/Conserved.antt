-- ===== src/LineBuffer/Conserved.antt =====
-- What goes into the line buffer of src/utility.c comes out of it, in lines.
use info_logger.Base.{
  ◌-◌, ◌≡◌, refl, sym, ap, subst, ◌∙◌, List, [], ◌∷◌, ◌++◌, Option, none, some, if◌then◌else◌,
  length, take, Option-cases, inl, inr, append_assoc, append-nil,
}
use info_logger.CText.{Bytes, c_str, strchr}
use info_logger.LineBuffer.{LineBuffer, Poll, add, cut, get_line, addstring, is_failure, new}
use info_logger.LineBuffer.Line.{break-split, cut-content, nothing, found}
use info_logger.LineBuffer.Taken.{Place, add-Moves, front, front_of, addstring-taken}

-- The calls of a user.
pub data Call : Type 0 where
  receive : List Poll → Call
  write : Bytes → Call
  line : Call

abbrev opt_list : Option Bytes → List Bytes
opt_list none = []
opt_list (some l) = l ∷ []

-- The lines that a call returns, and what it leaves.
unfoldable pub step : Call → Place → List Bytes × Place
step (receive ps) (socket, b) = let r = add ps socket b in ([], (r.1, r.2))
step (write s) (socket, b) = ([], (socket, (addstring b s).1))
step line (socket, b) = let r = get_line b in (opt_list r.0, (socket, r.1))

-- The bytes that a call takes out of the socket.
abbrev pub received : Call → Place → Bytes
received c (socket, b) = take (length socket - length (step c (socket, b)).1.0) socket

-- The bytes that are handed to the buffer in a call: those taken out of the socket, or the string of a
-- call that succeeds.
unfoldable pub handed : Call → Place → Bytes
handed (receive ps) (socket, b) = received (receive ps) (socket, b)
handed (write s) (socket, b) = if is_failure (addstring b s).0 then [] else c_str s
handed line (socket, b) = []

-- What happens in a sequence of calls.
pub record Run : Type 0 where
  pub from_socket : Bytes
  pub put_in : Bytes
  pub returned : List Bytes
  pub place : Place

unfoldable pub run : List Call → Place → Run
run [] s = record { from_socket = []; put_in = []; returned = []; place = s }
run (c ∷ cs) s =
    let r = step c s in
    let rest = run cs r.1 in
    record {
      from_socket = received c s ++ rest.from_socket;
      put_in = handed c s ++ rest.put_in;
      returned = r.0 ++ rest.returned;
      place = rest.place;
    }

-- Lines with their line feeds.
unfoldable pub unlines : List Bytes → Bytes
unlines [] = []
unlines (l ∷ ls) = l ++ b'\n' ∷ unlines ls

-- No line has a line feed.
abbrev pub NoBreaks : List Bytes → Type 0
NoBreaks [] = Unit
NoBreaks (l ∷ ls) = (strchr b'\n' l ≡ none) × NoBreaks ls

unlines-append : (ls ms : List Bytes) → unlines (ls ++ ms) ≡ unlines ls ++ unlines ms
unfolding unlines
unlines-append [] ms = refl
unlines-append (l ∷ ls) ms =
    ap (λ t. l ++ b'\n' ∷ t) (unlines-append ls ms)
    ∙ sym (append_assoc l (b'\n' ∷ unlines ls) (unlines ms))

NoBreaks-append : (ls ms : List Bytes) → NoBreaks ls → NoBreaks ms → NoBreaks (ls ++ ms)
NoBreaks-append [] ms h k = k
NoBreaks-append (l ∷ ls) ms h k = (h.0, NoBreaks-append ls ms h.1 k)

-- A line that is returned was at the start of the content.
abbrev Cuts : LineBuffer → Option Bytes × LineBuffer → Type 0
Cuts b r = (unlines (opt_list r.0) ++ r.1.content ≡ b.content ++ []) × NoBreaks (opt_list r.0)

get_line-kept : (b : LineBuffer) → Cuts b (get_line b)
unfolding unlines
get_line-kept b = elim (Option-cases (strchr b'\n' (c_str b.content))) [
  | inl e ↦ subst (Cuts b) (sym (nothing b e)) (sym (append-nil b.content), tt)
  | inr (k, e) ↦
      (let parts = break-split b.content k e in
        subst (Cuts b) (sym (found b k e)) (
          append_assoc (take k b.content) (b'\n' ∷ []) (cut k b).content
              ∙ ap (λ t. take k b.content ++ b'\n' ∷ t) (cut-content k b parts.2)
              ∙ sym parts.0
              ∙ sym (append-nil b.content),
          (parts.1, tt),
        ))
]

-- What the code does not take out of the socket stays there.
none_received : (socket : Bytes) → take (length socket - length socket) socket ≡ []
none_received socket = front [] socket

-- A call keeps all bytes, and its lines have no line feed.
record Keeps (c : Call) (s : Place) : Type 0 where
  kept : unlines (step c s).0 ++ (step c s).1.1.content ≡ s.1.content ++ handed c s
  left : s.0 ≡ received c s ++ (step c s).1.0
  plain : NoBreaks (step c s).0

step-Keeps : (c : Call) (s : Place) → Keeps c s
unfolding step unlines handed
step-Keeps (receive ps) (socket, b) =
    let (x, h, k) = add-Moves ps socket b in
    let e = front_of x socket (add ps socket b).1 k in
    record {
      kept = h ∙ ap (λ y. b.content ++ y) (sym e);
      left = k ∙ ap (λ y. y ++ (add ps socket b).1) (sym e);
      plain = tt;
    }
step-Keeps (write s) (socket, b) = record {
  kept = addstring-taken b s;
  left = ap (λ y. y ++ socket) (sym (none_received socket));
  plain = tt;
}
step-Keeps line (socket, b) = record {
  kept = (get_line-kept b).0;
  left = ap (λ y. y ++ socket) (sym (none_received socket));
  plain = (get_line-kept b).1;
}

-- What is put in comes out or is still there, and what leaves the socket was at its front.
pub record Conserves (cs : List Call) (s : Place) : Type 0 where
  pub comes_out :
      unlines (run cs s).returned ++ (run cs s).place.1.content ≡ s.1.content ++ (run cs s).put_in
  pub in_order : s.0 ≡ (run cs s).from_socket ++ (run cs s).place.0
  pub are_lines : NoBreaks (run cs s).returned

run-Conserves : (cs : List Call) (s : Place) → Conserves cs s
unfolding run unlines
run-Conserves [] s = record {
  comes_out = sym (append-nil s.1.content);
  in_order = refl;
  are_lines = tt;
}
run-Conserves (c ∷ cs) s =
    let here = step-Keeps c s in
    let s' = (step c s).1 in
    let rest = run-Conserves cs s' in
    let r = run cs s' in
    record {
      comes_out =
          ap (λ t. t ++ r.place.1.content) (unlines-append (step c s).0 r.returned)
          ∙ append_assoc (unlines (step c s).0) (unlines r.returned) r.place.1.content
          ∙ ap (λ t. unlines (step c s).0 ++ t) rest.comes_out
          ∙ sym (append_assoc (unlines (step c s).0) s'.1.content r.put_in)
          ∙ ap (λ t. t ++ r.put_in) here.kept
          ∙ append_assoc s.1.content (handed c s) r.put_in;
      in_order =
          here.left
          ∙ ap (λ t. received c s ++ t) rest.in_order
          ∙ sym (append_assoc (received c s) r.from_socket r.place.0);
      are_lines = NoBreaks-append (step c s).0 r.returned here.plain rest.are_lines;
    }

-- Whatever calls are made on a fresh line buffer, whatever is in the socket and in whatever pieces it
-- comes: the lines that come out, with their line feeds, and then what the buffer still holds are just
-- the bytes that were taken out of the socket and the strings that were put in, in order; what was
-- taken out of the socket and what is still in it are what was in it; and no line has a line feed.
pub run-fresh : (cs : List Call) (socket : Bytes) → Conserves cs (socket, new)
run-fresh cs socket = run-Conserves cs (socket, new)
