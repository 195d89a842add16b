-- ===== src/Files/Dup.antt =====
-- Duplicating a descriptor keeps the counts of the open files exact.
use fleurix.Base.{
  ℕ, ◌<◌, ◌≡◌, ◌≢◌, refl, ap, ◌∙◌, Bool, true, false, Option, none, some, arith, Option-cases,
  is_none, inl, inr,
}
use fleurix.Base.Loops.{update, find_first, find_first-some, find_first-none}
use fleurix.Base.Word.{ℤ, pos, minus_one}
use fleurix.Kernel.{File, Proc, Kernel, nproc, nofile, me, syserr}
use fleurix.Kernel.Errno.{enfile}
use fleurix.Files.{
  set_fd, share, add_inode_ref, add_file_ref, ufalloc, do_dup, dup_to_free, is_free_fd, to_u32,
}
use fleurix.Files.Refs.{refs, refs-set_fd, refs-same, refers, Counted}

-- A new reference to an inode touches the inodes only.
inode_ref_keeps :
    (k : Kernel) (o : Option ℕ) (fd : ℕ) (v : Option ℕ)
    → let k' = set_fd (add_inode_ref k o) fd v in
      (k'.file ≡ k.file)
      × (k'.proc ≡ (set_fd k fd v).proc)
      × (k'.present ≡ k.present)
      × (k'.cu ≡ k.cu)
inode_ref_keeps k none fd v = (refl, refl, refl, refl)
inode_ref_keeps k (some i) fd v = (refl, refl, refl, refl)

-- `share` gives the file one count more, and the descriptor.
pub share_parts :
    (k : Kernel) (f fd : ℕ)
    → ((share k f fd).file ≡ (add_file_ref k f).file)
      × ((share k f fd).proc ≡ (set_fd k fd (some f)).proc)
      × ((share k f fd).present ≡ k.present)
      × ((share k f fd).cu ≡ k.cu)
unfolding share
share_parts k f fd = inode_ref_keeps (add_file_ref k f) (k.file f).ino fd (some f)

pub refs-share : (k : Kernel) (f fd g : ℕ) → refs (share k f fd) g ≡ refs (set_fd k fd (some f)) g
refs-share k f fd g =
    let p = share_parts k f fd in
    refs-same (set_fd k fd (some f)) (share k f fd) g
      (λ i lt. (ap (λ (t : ℕ → Bool). t i) p.2, ap (λ (t : ℕ → Proc). (t i).ofile) p.1))

-- With one descriptor and one count more for the file, all counts stay exact.
pub share-Counted :
    (k : Kernel) (f fd : ℕ)
    → fd < nofile
    → k.cu < nproc
    → k.present k.cu ≡ true
    → (me k).ofile fd ≡ none
    → (k.file f).count < 127
    → Counted k
    → Counted (share k f fd)
share-Counted k f fd lt cu there free small c g g_lt =
    let p = share_parts k f fd in
    let moved = refs-set_fd k g fd (some f) lt cu there in
    let gone : refers g ((me k).ofile fd) ≡ 0 = rw free in
    ap (λ (t : ℕ → File). (t g).count) p.0
    ∙ ground (arith, moved, gone, refs-share k f fd g, c g g_lt)

-- What `do_dup` of an open descriptor does: it fails with every descriptor in use, and otherwise
-- gives the lowest free descriptor to the same file and keeps every other one.
pub data Dups (k : Kernel) (f : ℕ) : Kernel × ℤ → Type 0 where
  none_free : ((i : ℕ) → i < nofile → (me k).ofile i ≢ none) → Dups k f (syserr k enfile, minus_one)
  dups :
      (k' : Kernel) (fd : ℕ)
      → fd < nofile
      → (me k).ofile fd ≡ none
      → ((i : ℕ) → i < fd → (me k).ofile i ≢ none)
      → (me k').ofile fd ≡ some f
      → ((i : ℕ) → i ≢ fd → (me k').ofile i ≡ (me k).ofile i)
      → Counted k'
      → Dups k f (k', pos fd)

free_none : (o : Option ℕ) → is_none o ≡ true → o ≡ none
free_none none e = refl
free_none (some f) e = absurd (cc)

busy_some : (o : Option ℕ) → is_none o ≡ false → o ≢ none
busy_some o e q = cc (ap is_none q)

-- `do_dup` of an open descriptor, with exact counts of the open files and that of the file below
-- 127: with every descriptor in use it fails, and otherwise it gives the lowest free descriptor to
-- the same file, keeps every other descriptor, and the counts are exact again.
pub do_dup-Dups :
    (k : Kernel) (old f : ℕ)
    → old < nofile
    → (me k).ofile old ≡ some f
    → k.cu < nproc
    → k.present k.cu ≡ true
    → (k.file f).count < 127
    → Counted k
    → Dups k f (do_dup k (pos old))
do_dup-Dups k old f lt open_ cu there small c =
    let found : do_dup k (pos old) ≡ dup_to_free k f = at_file in
    rw found (elim (Option-cases (find_first nofile 0 (is_free_fd k))) [
      | inl full ↦
          let e : dup_to_free k f ≡ (syserr k enfile, minus_one) = no_room full in
          rw e (
            none_free (λ i l.
              busy_some ((me k).ofile i)
                (find_first-none nofile 0 (is_free_fd k) full i (omega arith) l)))
      | inr (fd, hit) ↦
          let s = find_first-some nofile 0 (is_free_fd k) fd hit in
          let p = share_parts k f fd in
          let free : (me k).ofile fd ≡ none = free_none ((me k).ofile fd) s.2 in
          let mine : (me (share k f fd)).ofile ≡ update (me k).ofile fd (some f) =
            ap (λ (t : ℕ → Proc). (t (share k f fd).cu).ofile) p.1
            ∙ ap (λ (c : ℕ). ((set_fd k fd (some f)).proc c).ofile) p.3
            ∙ ground arith in
          rw (room fd hit) (
            dups (share k f fd) fd s.1 free
              (λ i l. busy_some ((me k).ofile i) (s.3 i (omega arith) l))
              (ap (λ (t : ℕ → Option ℕ). t fd) mine ∙ ground arith)
              (λ i ne. ap (λ (t : ℕ → Option ℕ). t i) mine ∙ ground arith)
              (share-Counted k f fd s.1 cu there free small c))
    ])
  where
    at_file : do_dup k (pos old) ≡ dup_to_free k f
    at_file =
        let same : to_u32 (pos old) ≡ old = omega arith in
        unfold do_dup in rw (same, do_dup) (rw (open_, do_dup) (ground arith))

    no_room :
        find_first nofile 0 (is_free_fd k) ≡ none → dup_to_free k f ≡ (syserr k enfile, minus_one)
    no_room e =
        let none_left : ufalloc k ≡ (syserr k enfile, none) = unfold ufalloc in rw (e, ufalloc) in
        unfold dup_to_free in
        rw (none_left, dup_to_free) (ap (λ (r : Kernel × Option ℕ). (r.0, minus_one)) none_left)

    room :
        (fd : ℕ)
        → find_first nofile 0 (is_free_fd k) ≡ some fd
        → dup_to_free k f ≡ (share k f fd, pos fd)
    room fd e =
        let first : ufalloc k ≡ (k, some fd) = unfold ufalloc in rw (e, ufalloc) in
        unfold dup_to_free in
        rw (first, dup_to_free) (ap (λ (r : Kernel × Option ℕ). (share r.0 f fd, pos fd)) first)
