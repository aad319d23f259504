-- ===== src/Thread/Narration/Laws.antt =====
-- What the text of a turn is after a run of snapshots, deltas or rewrites.
use cubestack.Prelude.{
  ℕ, zero, suc, ◌≡◌, refl, ap, sym, true, Option, none, some, List, [], ◌∷◌, ◌++◌, arith, Text,
  text_eq, text_eq_iff, text_eq_refl, is_text, find_index, update_at, get_elem?, if◌then◌else◌,
  find_index-none, find_index-append, update_at-append, is_text_iff, length, ◌≤◌, length-append,
  length-update_at,
}
use cubestack.Thread.{AgentBlock, AgentMsg, TextBlock}
use cubestack.Thread.Narration.{
  is_narration, with_text, shows, text_block, narrate, narrate_at, append_to, append_text,
  replace_in, replace_text, set_last, answer_block, rewritten,
}

-- Writing one text and then another at the place of a narration block.
find_narration-update_at :
    (id t : Text) (bs : List AgentBlock) (i : ℕ)
    → find_index (is_narration id) (update_at i (with_text t) bs) ≡ find_index (is_narration id) bs
find_narration-update_at id t [] i = refl
find_narration-update_at id t (AgentBlock.text b ∷ bs) zero = refl
find_narration-update_at id t (AgentBlock.tool b ∷ bs) zero = refl
find_narration-update_at id t (b ∷ bs) (suc i) = rw (find_narration-update_at id t bs i)

update_at-twice :
    (s t : Text) (bs : List AgentBlock) (i : ℕ)
    → update_at i (with_text t) (update_at i (with_text s) bs) ≡ update_at i (with_text t) bs
update_at-twice s t [] i = refl
update_at-twice s t (AgentBlock.text b ∷ bs) zero = refl
update_at-twice s t (AgentBlock.tool b ∷ bs) zero = refl
update_at-twice s t (b ∷ bs) (suc i) = rw (update_at-twice s t bs i)

-- A block that shows the text already is left as it is by writing it.
update_at-shows :
    (t : Text) (bs : List AgentBlock) (i : ℕ)
    → shows t (get_elem? bs i) ≡ true
    → update_at i (with_text t) bs ≡ bs
update_at-shows t [] i h = refl
update_at-shows t (AgentBlock.text b ∷ bs) zero h =
    ap (λ u. AgentBlock.text (record b { text = u }) ∷ bs) (sym ((text_eq_iff b.text t).0 h))
update_at-shows t (AgentBlock.tool b ∷ bs) zero h = refl
update_at-shows t (b ∷ bs) (suc i) h = rw (update_at-shows t bs i h)

-- The blocks after a snapshot, whether or not it is a repetition.
abbrev narrated : List AgentBlock → Text → Text → Option ℕ → List AgentBlock
narrated bs id t none = bs ++ text_block t (some id) ∷ []
narrated bs id t (some i) = update_at i (with_text t) bs

narrate_at-blocks :
    (msg : AgentMsg) (id t : Text) (o : Option ℕ)
    → narrate_at msg id t o ≡ record msg { blocks = narrated msg.blocks id t o }
unfolding narrate_at
narrate_at-blocks msg id t none = refl
narrate_at-blocks msg id t (some i) = ground (arith, update_at-shows t msg.blocks i)

narrated-twice :
    (bs : List AgentBlock) (id s t : Text) (o : Option ℕ)
    → find_index (is_narration id) bs ≡ o
    → narrated (narrated bs id s o) id t (find_index (is_narration id) (narrated bs id s o))
      ≡ narrated bs id t o
narrated-twice bs id s t none e =
    rw
      (find_index-append (is_narration id) bs [] (text_block s (some id))
        (find_index-none (is_narration id) bs e) (text_eq_refl id))
      (update_at-append (with_text t) bs [] (text_block s (some id)))
narrated-twice bs id s t (some i) e =
    rw (find_narration-update_at id s bs i, e) (update_at-twice s t bs i)

-- A narration is a snapshot: after two of one block the turn is as after the second alone, so that
-- a repetition changes nothing.
pub narrate-narrate :
    (msg : AgentMsg) (id s t : Text) → narrate (narrate msg id s) id t ≡ narrate msg id t
unfolding narrate
narrate-narrate msg id s t =
    let o = find_index (is_narration id) msg.blocks in
    rw (narrate_at-blocks msg id s o, narrate_at-blocks, narrate_at-blocks msg id t o)
      (ap (λ bs. record msg { blocks = bs }) (narrated-twice msg.blocks id s t o refl))

-- The view of a turn's narration as a dictionary: the text of the first block with the id.
abbrev pub narration_of : Text → List AgentBlock → Option Text
narration_of id [] = none
narration_of id (AgentBlock.text b ∷ bs) =
    if is_text b.block_id id then some b.text else narration_of id bs
narration_of id (AgentBlock.tool b ∷ bs) = narration_of id bs

narration_of-append :
    (j id t : Text) (bs : List AgentBlock)
    → find_index (is_narration id) bs ≡ none
    → narration_of j (bs ++ text_block t (some id) ∷ [])
      ≡ (if text_eq id j then some t else narration_of j bs)
narration_of-append j id t [] e = refl
narration_of-append j id t (AgentBlock.tool b ∷ bs) e = narration_of-append j id t bs (ground arith)
narration_of-append j id t (AgentBlock.text b ∷ bs) e = ground (
  arith,
  is_text_iff b.block_id id,
  is_text_iff b.block_id j,
  text_eq_iff id j,
  narration_of-append j id t bs,
)

narration_of-update :
    (j id t : Text) (bs : List AgentBlock) (i : ℕ)
    → find_index (is_narration id) bs ≡ some i
    → narration_of j (update_at i (with_text t) bs)
      ≡ (if text_eq id j then some t else narration_of j bs)
narration_of-update j id t [] i e = absurd (ground arith)
narration_of-update j id t (AgentBlock.tool b ∷ bs) zero e = absurd (ground arith)
narration_of-update j id t (AgentBlock.tool b ∷ bs) (suc i) e =
    narration_of-update j id t bs i (ground arith)
narration_of-update j id t (AgentBlock.text b ∷ bs) zero e =
    ground (arith, is_text_iff b.block_id id, is_text_iff b.block_id j, text_eq_iff id j)
narration_of-update j id t (AgentBlock.text b ∷ bs) (suc i) e = ground (
  arith,
  is_text_iff b.block_id id,
  is_text_iff b.block_id j,
  text_eq_iff id j,
  narration_of-update j id t bs i,
)

narration_of-narrated :
    (j id t : Text) (bs : List AgentBlock) (o : Option ℕ)
    → find_index (is_narration id) bs ≡ o
    → narration_of j (narrated bs id t o) ≡ (if text_eq id j then some t else narration_of j bs)
narration_of-narrated j id t bs none e = narration_of-append j id t bs e
narration_of-narrated j id t bs (some i) e = narration_of-update j id t bs i e

-- Narrating a block writes the block's text and that of no other block.
pub narration_of-narrate :
    (msg : AgentMsg) (j id t : Text)
    → narration_of j (narrate msg id t).blocks
      ≡ (if text_eq id j then some t else narration_of j msg.blocks)
unfolding narrate
narration_of-narrate msg j id t =
    rw (narrate_at-blocks msg id t (find_index (is_narration id) msg.blocks))
      (narration_of-narrated j id t msg.blocks (find_index (is_narration id) msg.blocks) refl)

-- A step that writes nothing but blocks, and drops none.
abbrev pub Grows : AgentMsg → AgentMsg → Type 0
Grows m n = (bs : List AgentBlock) × (n ≡ record m { blocks = bs }) × (length m.blocks ≤ length bs)

length-narrated :
    (bs : List AgentBlock) (id t : Text) (o : Option ℕ) → length bs ≤ length (narrated bs id t o)
length-narrated bs id t none = omega (arith, length-append bs (text_block t (some id) ∷ []))
length-narrated bs id t (some i) = omega (arith, length-update_at i (with_text t) bs)

pub narrate-Grows : (msg : AgentMsg) (id t : Text) → Grows msg (narrate msg id t)
unfolding narrate
narrate-Grows msg id t =
    let o = find_index (is_narration id) msg.blocks in
    (narrated msg.blocks id t o, narrate_at-blocks msg id t o, length-narrated msg.blocks id t o)

length-set_last : (b : AgentBlock) (bs : List AgentBlock) → length (set_last b bs) ≡ length bs
length-set_last b [] = refl
length-set_last b (c ∷ []) = refl
length-set_last b (c ∷ d ∷ bs) = ap suc (length-set_last b (d ∷ bs))

length-append_to :
    (bs : List AgentBlock) (t : Text) (o : Option TextBlock) → length bs ≤ length (append_to bs t o)
unfolding append_to
length-append_to bs t none = omega (arith, length-append bs (text_block t none ∷ []))
length-append_to bs t (some cur) =
    omega (arith, length-set_last (AgentBlock.text (record cur { text = cur.text ++ t })) bs)

pub append_text-Grows : (msg : AgentMsg) (t : Text) → Grows msg (append_text msg t)
unfolding append_text
append_text-Grows msg t = (_, refl, length-append_to msg.blocks t (answer_block msg.blocks))

length-replace_in :
    (bs : List AgentBlock) (t : Text) (o : Option TextBlock)
    → length bs ≤ length (replace_in bs t o)
unfolding replace_in
length-replace_in bs t none = omega (arith, length-append bs (text_block t none ∷ []))
length-replace_in bs t (some cur) = omega (arith, length-set_last (rewritten cur t) bs)

pub replace_text-Grows : (msg : AgentMsg) (t : Text) → Grows msg (replace_text msg t)
unfolding replace_text
replace_text-Grows msg t = (_, refl, length-replace_in msg.blocks t (answer_block msg.blocks))
