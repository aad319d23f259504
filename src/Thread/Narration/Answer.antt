-- ===== src/Thread/Narration/Answer.antt =====
-- The turn's own text: the chunks of a stream, and rewrites of what was streamed.
use cubestack.Prelude.{
  ◌≡◌, refl, ap, sym, ◌∙◌, true, Option, none, some, List, [], ◌∷◌, ◌++◌, append_assoc, append-nil,
  arith, Text, text_eq, text_eq_iff, includes, get_or, is_truthy, ◌≡⟨◌⟩◌, ◌||◌, ◌∎,
}
use mathlib.Core.List.{flatten}
use cubestack.Thread.{AgentBlock, TextBlock, AgentMsg}
use cubestack.Thread.Narration.{
  append_text, append_to, answer_block, set_last, replace_text, replace_in, rewritten, displaced,
  drop_empty,
}

answer_block-append :
    (bs : List AgentBlock) (b : TextBlock)
    → b.block_id ≡ none
    → answer_block (bs ++ AgentBlock.text b ∷ []) ≡ some b
unfolding answer_block
answer_block-append [] b e = rw e
answer_block-append (AgentBlock.text c ∷ []) b e = rw e
answer_block-append (AgentBlock.tool c ∷ []) b e = rw e
answer_block-append (AgentBlock.text c ∷ d ∷ bs) b e = answer_block-append (d ∷ bs) b e
answer_block-append (AgentBlock.tool c ∷ d ∷ bs) b e = answer_block-append (d ∷ bs) b e

set_last-append :
    (bs : List AgentBlock) (b c : AgentBlock) → set_last c (bs ++ b ∷ []) ≡ bs ++ c ∷ []
set_last-append [] b c = refl
set_last-append (d ∷ []) b c = refl
set_last-append (d ∷ e ∷ bs) b c = rw (set_last-append (e ∷ bs) b c)

answer_block-own :
    (bs : List AgentBlock) (b : TextBlock) → answer_block bs ≡ some b → b.block_id ≡ none
unfolding answer_block
answer_block-own [] b h = absurd (ground arith)
answer_block-own (AgentBlock.text c ∷ []) b h = ground arith
answer_block-own (AgentBlock.tool c ∷ []) b h = absurd (ground arith)
answer_block-own (AgentBlock.text c ∷ d ∷ bs) b h = answer_block-own (d ∷ bs) b h
answer_block-own (AgentBlock.tool c ∷ d ∷ bs) b h = answer_block-own (d ∷ bs) b h

-- The list in front of a turn's own text.
split_answer :
    (bs : List AgentBlock) (b : TextBlock)
    → answer_block bs ≡ some b
    → (front : List AgentBlock) × (bs ≡ front ++ AgentBlock.text b ∷ [])
unfolding answer_block
split_answer [] b h = absurd (ground arith)
split_answer (AgentBlock.text c ∷ []) b h = ([], ground arith)
split_answer (AgentBlock.tool c ∷ []) b h = absurd (ground arith)
split_answer (AgentBlock.text c ∷ d ∷ bs) b h =
    let (front, e) = split_answer (d ∷ bs) b h in
    (AgentBlock.text c ∷ front, ap (λ t. AgentBlock.text c ∷ t) e)
split_answer (AgentBlock.tool c ∷ d ∷ bs) b h =
    let (front, e) = split_answer (d ∷ bs) b h in
    (AgentBlock.tool c ∷ front, ap (λ t. AgentBlock.tool c ∷ t) e)

answer_block-set_last :
    (bs : List AgentBlock) (cur b : TextBlock)
    → answer_block bs ≡ some cur
    → b.block_id ≡ none
    → answer_block (set_last (AgentBlock.text b) bs) ≡ some b
answer_block-set_last bs cur b h e =
    let (front, split) = split_answer bs cur h in
    rw (split, set_last-append front (AgentBlock.text cur) (AgentBlock.text b))
      (answer_block-append front b e)

set_last-twice :
    (bs : List AgentBlock) (b c : AgentBlock) → set_last c (set_last b bs) ≡ set_last c bs
set_last-twice [] b c = refl
set_last-twice (d ∷ []) b c = refl
set_last-twice (d ∷ e ∷ []) b c = refl
set_last-twice (d ∷ e ∷ f ∷ bs) b c = ap (λ t. d ∷ t) (set_last-twice (e ∷ f ∷ bs) b c)

-- A block in the place of the turn's own text, or behind the others where there is none.
abbrev put_answer : List AgentBlock → TextBlock → Option TextBlock → List AgentBlock
put_answer bs b none = bs ++ AgentBlock.text b ∷ []
put_answer bs b (some cur) = set_last (AgentBlock.text b) bs

answer_block-put :
    (bs : List AgentBlock) (b : TextBlock) (o : Option TextBlock)
    → answer_block bs ≡ o
    → b.block_id ≡ none
    → answer_block (put_answer bs b o) ≡ some b
answer_block-put bs b none h e = answer_block-append bs b e
answer_block-put bs b (some cur) h e = answer_block-set_last bs cur b h e

set_last-put :
    (bs : List AgentBlock) (b c : TextBlock) (o : Option TextBlock)
    → set_last (AgentBlock.text c) (put_answer bs b o) ≡ put_answer bs c o
set_last-put bs b c none = set_last-append bs (AgentBlock.text b) (AgentBlock.text c)
set_last-put bs b c (some cur) = set_last-twice bs (AgentBlock.text b) (AgentBlock.text c)

fresh_text : Text → TextBlock
fresh_text t = record { text = t; superseded = none; block_id = none }

grown : Text → Option TextBlock → TextBlock
grown d none = record { text = d; superseded = none; block_id = none }
grown d (some cur) = record cur { text = cur.text ++ d }

append_to-put :
    (bs : List AgentBlock) (d : Text) (o : Option TextBlock)
    → append_to bs d o ≡ put_answer bs (grown d o) o
unfolding append_to grown
append_to-put bs d none = refl
append_to-put bs d (some cur) = refl

grown-own :
    (bs : List AgentBlock) (d : Text) (o : Option TextBlock)
    → answer_block bs ≡ o
    → (grown d o).block_id ≡ none
unfolding grown
grown-own bs d none h = refl
grown-own bs d (some cur) h = answer_block-own bs cur h

grown-grown : (d e : Text) (o : Option TextBlock) → grown e (some (grown d o)) ≡ grown (d ++ e) o
unfolding grown
grown-grown d e none = refl
grown-grown d e (some cur) = ap (λ t. record cur { text = t }) (append_assoc cur.text d e)

append_to-append :
    (bs : List AgentBlock) (d e : Text) (o : Option TextBlock)
    → answer_block bs ≡ o
    → append_to (append_to bs d o) e (answer_block (append_to bs d o)) ≡ append_to bs (d ++ e) o
append_to-append bs d e o h =
    let b = grown d o in
    append_to (append_to bs d o) e (answer_block (append_to bs d o))
    ≡⟨ ap (λ t. append_to t e (answer_block t)) (append_to-put bs d o) ⟩
      append_to (put_answer bs b o) e (answer_block (put_answer bs b o))
    ≡⟨ ap (append_to (put_answer bs b o) e) (answer_block-put bs b o h (grown-own bs d o h)) ⟩
      append_to (put_answer bs b o) e (some b)
    ≡⟨ append_to-put (put_answer bs b o) e (some b) ⟩
      set_last (AgentBlock.text (grown e (some b))) (put_answer bs b o)
    ≡⟨ set_last-put bs b (grown e (some b)) o ⟩ put_answer bs (grown e (some b)) o
    ≡⟨ ap (λ t. put_answer bs t o) (grown-grown d e o) ⟩ put_answer bs (grown (d ++ e) o) o
    ≡⟨ sym (append_to-put bs (d ++ e) o) ⟩ append_to bs (d ++ e) o ∎

-- Two chunks of a stream are the chunk that they spell.
append_text-append :
    (msg : AgentMsg) (d e : Text) → append_text (append_text msg d) e ≡ append_text msg (d ++ e)
unfolding append_text
append_text-append msg d e =
    ap (λ bs. record msg { blocks = bs })
      (append_to-append msg.blocks d e (answer_block msg.blocks) refl)

abbrev pub append_chunks : AgentMsg → List Text → AgentMsg
append_chunks msg [] = msg
append_chunks msg (d ∷ ds) = append_chunks (append_text msg d) ds

-- Where a stream is cut into chunks does not show in the turn.
pub append_chunks-flatten :
    (msg : AgentMsg) (d : Text) (ds : List Text)
    → append_chunks msg (d ∷ ds) ≡ append_text msg (d ++ flatten ds)
unfolding flatten
append_chunks-flatten msg d [] = ap (append_text msg) (sym (append-nil d))
append_chunks-flatten msg d (e ∷ ds) =
    ap (λ m. append_chunks m ds) (append_text-append msg d e)
    ∙ append_chunks-flatten msg (d ++ e) ds
    ∙ ap (append_text msg) (append_assoc d e (flatten ds))

replaced : Text → Option TextBlock → TextBlock
replaced next none = record { text = next; superseded = none; block_id = none }
replaced next (some last) = record {
  text = next;
  superseded = drop_empty (displaced last next);
  block_id = none;
}

replace_in-put :
    (bs : List AgentBlock) (t : Text) (o : Option TextBlock)
    → replace_in bs t o ≡ put_answer bs (replaced t o) o
unfolding replace_in rewritten replaced
replace_in-put bs t none = refl
replace_in-put bs t (some cur) = refl

replaced-own : (t : Text) (o : Option TextBlock) → (replaced t o).block_id ≡ none
unfolding replaced
replaced-own t none = refl
replaced-own t (some cur) = refl

drop_empty-drop_empty : (o : Option (List Text)) → drop_empty (drop_empty o) ≡ drop_empty o
drop_empty-drop_empty none = refl
drop_empty-drop_empty (some []) = refl
drop_empty-drop_empty (some (t ∷ ts)) = refl

replaced-replaced :
    (t : Text) (o : Option TextBlock) → replaced t (some (replaced t o)) ≡ replaced t o
unfolding replaced displaced
replaced-replaced t none = ground (arith, text_eq_iff t t)
replaced-replaced t (some cur) =
    ground (arith, text_eq_iff t t, drop_empty-drop_empty (displaced cur t))

replace_in-replace :
    (bs : List AgentBlock) (t : Text) (o : Option TextBlock)
    → answer_block bs ≡ o
    → replace_in (replace_in bs t o) t (answer_block (replace_in bs t o)) ≡ replace_in bs t o
replace_in-replace bs t o h =
    let b = replaced t o in
    replace_in (replace_in bs t o) t (answer_block (replace_in bs t o))
    ≡⟨ ap (λ u. replace_in u t (answer_block u)) (replace_in-put bs t o) ⟩
      replace_in (put_answer bs b o) t (answer_block (put_answer bs b o))
    ≡⟨ ap (replace_in (put_answer bs b o) t) (answer_block-put bs b o h (replaced-own t o)) ⟩
      replace_in (put_answer bs b o) t (some b)
    ≡⟨ replace_in-put (put_answer bs b o) t (some b) ⟩
      set_last (AgentBlock.text (replaced t (some b))) (put_answer bs b o)
    ≡⟨ set_last-put bs b (replaced t (some b)) o ⟩ put_answer bs (replaced t (some b)) o
    ≡⟨ ap (λ u. put_answer bs u o) (replaced-replaced t o) ⟩ put_answer bs b o
    ≡⟨ sym (replace_in-put bs t o) ⟩ replace_in bs t o ∎

-- A rewrite that is repeated changes nothing, so that no copies of a text pile up.
pub replace_text_idempotent :
    (msg : AgentMsg) (t : Text) → replace_text (replace_text msg t) t ≡ replace_text msg t
unfolding replace_text
replace_text_idempotent msg t =
    ap (λ bs. record msg { blocks = bs })
      (replace_in-replace msg.blocks t (answer_block msg.blocks) refl)

-- The texts that a block shows or keeps.
abbrev pub texts_of : TextBlock → List Text
texts_of b = get_or b.superseded [] ++ b.text ∷ []

includes-append :
    (xs ys : List Text) (u : Text) → includes (xs ++ ys) u ≡ (includes xs u || includes ys u)
includes-append [] ys u = refl
includes-append (x ∷ xs) ys u = ground (arith, includes-append xs ys u)

get_or-drop_empty : (o : Option (List Text)) → get_or (drop_empty o) [] ≡ get_or o []
get_or-drop_empty none = refl
get_or-drop_empty (some []) = refl
get_or-drop_empty (some (t ∷ ts)) = refl

includes-displaced :
    (t u : Text) (b : TextBlock)
    → is_truthy u ≡ true
    → includes (texts_of b) u ≡ true
    → includes (get_or (displaced b t) [] ++ t ∷ []) u ≡ true
unfolding displaced text_eq
includes-displaced t [] b v k = absurd (ground arith)
includes-displaced t (c ∷ cs) b v k =
    let u : Text = c ∷ cs in
    ground (
      arith,
      includes-append (get_or b.superseded []) (b.text ∷ []) u,
      includes-append (get_or b.superseded []) (t ∷ []) u,
      includes-append (get_or b.superseded [] ++ b.text ∷ []) (t ∷ []) u,
      text_eq_iff b.text t,
    )

-- A rewrite shows the new text and keeps every text that was there to read, the empty one aside.
pub replace_text-keeps :
    (msg : AgentMsg) (t u : Text) (b : TextBlock)
    → answer_block msg.blocks ≡ some b
    → is_truthy u ≡ true
    → includes (texts_of b) u ≡ true
    → (c : TextBlock) × (answer_block (replace_text msg t).blocks ≡ some c)
      × (c.text ≡ t)
      × (includes (texts_of c) u ≡ true)
unfolding replace_text replaced
replace_text-keeps msg t u b h v k = (
  replaced t (some b),
  rw (h, replace_in-put msg.blocks t (some b))
      (answer_block-put msg.blocks (replaced t (some b)) (some b) h refl),
  refl,
  rw (get_or-drop_empty (displaced b t)) (includes-displaced t u b v k),
)
