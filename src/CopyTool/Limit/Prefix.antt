-- ===== src/CopyTool/Limit/Prefix.antt =====
-- The walk of Homework4 is that of Homework5, cut off where the descriptors run out.
use system_programming_cse.Common.{
  ℕ, ◌≡◌, refl, sym, ap, ap₂, ◌∙◌, Bool, true, false, Bool-cases, inl, inr, Option, none, some,
  List, [], ◌∷◌, ◌++◌, append_assoc, append-nil, if◌then◌else◌, Text,
}
use system_programming_cse.CopyTool.Walk.{Action, open_read, is_link, join}
use system_programming_cse.CopyTool.Walk
use system_programming_cse.CopyTool.Limit.{
  Opened, descriptor, refused, exhausted, Dir, unreadable, listing, Entries, nil, cons, Entry,
  directory, regular, fifo, other, Walked, walked, and_then, regular_actions, fifo_actions,
  directory_actions, process_directory, process_entries, process_entry,
}

-- The directory as Homework5 sees it, where EMFILE is an error like any other.
opened : Opened → Option ℕ
opened (descriptor s) = some s
opened refused = none
opened exhausted = none

mutual
  unfolding opened

  pub seen : Dir → Walk.Dir
  seen unreadable = Walk.Dir.unreadable
  seen (listing entries) = Walk.Dir.listing (seen_entries entries)

  pub seen_entries : Entries → Walk.Entries
  seen_entries nil = Walk.Entries.nil
  seen_entries (cons e es) = Walk.Entries.cons (seen_entry e) (seen_entries es)

  pub seen_entry : Entry → Walk.Entry
  seen_entry (directory name made d) = Walk.Entry.directory name made (seen d)
  seen_entry (regular name s d) = Walk.Entry.regular name (opened s) d
  seen_entry (fifo name made) = Walk.Entry.fifo name made
  seen_entry (other name) = Walk.Entry.other name

-- The calls are the first ones of `full`, and all of them if the program has not ended.
pub record IsCut (w : Walked) (full : List Action) : Type 0 where
  pub rest : List Action
  pub starts : full ≡ w.actions ++ rest
  pub whole : w.ended ≡ false → rest ≡ []

IsCut-and_then :
    (w v : Walked) (a b : List Action) → IsCut w a → IsCut v b → IsCut (and_then w v) (a ++ b)
IsCut-and_then w v a b i j = elim (Bool-cases w.ended) [
  | inl e ↦ rw e (record {
    rest = i.rest ++ b;
    starts = ap (λ l. l ++ b) i.starts ∙ append_assoc w.actions i.rest b;
    whole = λ h. cc;
  })
  | inr e ↦
      let all = i.starts ∙ ap (λ l. w.actions ++ l) (i.whole e) ∙ append-nil w.actions in
      rw e (record {
        rest = j.rest;
        starts = ap₂ (λ x y. x ++ y) all j.starts ∙ sym (append_assoc w.actions v.actions j.rest);
        whole = j.whole;
      })
]

walked-IsCut : (actions : List Action) → IsCut (walked actions) actions
walked-IsCut actions = record { rest = []; starts = sym (append-nil actions); whole = λ h. refl }

regular_actions-IsCut :
    (src dest : Text) (s : Opened) (d : Option ℕ)
    → IsCut (regular_actions src dest s d) (Walk.regular_actions src dest (opened s) d)
unfolding regular_actions opened Walk.regular_actions
regular_actions-IsCut src dest exhausted d = record { rest = []; starts = refl; whole = λ h. cc }
regular_actions-IsCut src dest refused d = walked-IsCut _
regular_actions-IsCut src dest (descriptor s) none = walked-IsCut _
regular_actions-IsCut src dest (descriptor s) (some d) = walked-IsCut _

fifo_actions-IsCut :
    (dest : Text) (made : Bool) → IsCut (fifo_actions dest made) (Walk.fifo_actions dest made)
unfolding fifo_actions Walk.fifo_actions
fifo_actions-IsCut dest true = walked-IsCut _
fifo_actions-IsCut dest false = walked-IsCut _

directory_actions-IsCut :
    (dest : Text) (made : Bool) (w : Walked) (a : List Action)
    → IsCut w a
    → IsCut (directory_actions dest made w) (Walk.directory_actions dest made a)
unfolding directory_actions Walk.directory_actions
directory_actions-IsCut dest true w a i =
    let counted = Walk.make_dir dest ∷ Walk.count_dir ∷ [] in
    IsCut-and_then (walked counted) w counted a (walked-IsCut counted) i
directory_actions-IsCut dest false w a i = walked-IsCut _

if_IsCut :
    (b : Bool) (w v : Walked) (x y : List Action)
    → IsCut w x
    → IsCut v y
    → IsCut (if b then w else v) (if b then x else y)
if_IsCut true w v x y i j = i
if_IsCut false w v x y i j = j

module _ (path_max : ℕ) where
  mutual
    unfolding process_directory Walk.process_directory seen

    IsCut-dir :
        (d : Dir) (src dest : Text)
        → IsCut
            (process_directory path_max d src dest)
            (Walk.process_directory path_max (seen d) src dest)
    IsCut-dir unreadable src dest = walked-IsCut []
    IsCut-dir (listing es) src dest = IsCut-entries es src dest

    IsCut-entries :
        (es : Entries) (src dest : Text)
        → IsCut
            (process_entries path_max es src dest)
            (Walk.process_entries path_max (seen_entries es) src dest)
    IsCut-entries nil src dest = walked-IsCut []
    IsCut-entries (cons e es) src dest =
        IsCut-and_then _ _ _ _ (IsCut-entry e src dest) (IsCut-entries es src dest)

    IsCut-entry :
        (e : Entry) (src dest : Text)
        → IsCut
            (process_entry path_max e src dest)
            (Walk.process_entry path_max (seen_entry e) src dest)
    IsCut-entry (directory name made d) src dest =
        let from = join path_max src name in
        let to = join path_max dest name in
        if_IsCut (is_link name) (walked []) _ [] _ (walked-IsCut []) (
          directory_actions-IsCut to made (process_directory path_max d from to) _
            (IsCut-dir d from to))
    IsCut-entry (regular name s d) src dest =
        if_IsCut (is_link name) (walked []) _ [] _ (walked-IsCut [])
          (regular_actions-IsCut (join path_max src name) (join path_max dest name) s d)
    IsCut-entry (fifo name made) src dest =
        if_IsCut (is_link name) (walked []) _ [] _ (walked-IsCut [])
          (fifo_actions-IsCut (join path_max dest name) made)
    IsCut-entry (other name) src dest = walked-IsCut []

-- The walk of Homework4 makes the calls of the walk of Homework5 over the same directory, in their
-- order: all of them, or, if it has ended the program, only the first ones.
pub process_directory-IsCut :
    (path_max : ℕ) (d : Dir) (src dest : Text)
    → IsCut
        (process_directory path_max d src dest)
        (Walk.process_directory path_max (seen d) src dest)
process_directory-IsCut = IsCut-dir
