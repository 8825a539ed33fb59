-- ===== src/FileUtil/Handle.antt =====
-- vqro/base/fileutil.h: FileHandle, which WriteVector, ReadValues and WriteValues take by value, and
-- the descriptors of the process. A file is a number; the table has, for each descriptor, the file
-- that it stands for, if it is open. open() takes the lowest descriptor that is free.
use vqro.Base.{
  ℕ, zero, suc, List, [], ◌∷◌, Option, none, some, Bool, true, false, set, get_elem?, ◌≡◌, refl, ap,
}

abbrev pub Descriptors : Type 0
Descriptors = List (Option ℕ)

unfoldable pub open_fd : ℕ → Descriptors → Descriptors × ℕ
open_fd file [] = (some file ∷ [], 0)
open_fd file (none ∷ fds) = (some file ∷ fds, 0)
open_fd file (some other ∷ fds) = (some other ∷ (open_fd file fds).0, suc (open_fd file fds).1)

-- A descriptor that is not open is not closed: EBADF, which nobody asks for.
abbrev pub close_fd : ℕ → Descriptors → Descriptors
close_fd fd fds = set fds fd none

-- `none` is the descriptor -1 of a call of open() that failed.
pub record FileHandle : Type 0 where
  pub path : ℕ
  pub fd : Option ℕ

-- The constructor; the test is whether open() succeeds.
unfoldable pub new_handle : ℕ → Bool → Descriptors → Descriptors × FileHandle
unfolding open_fd
new_handle path true fds =
    ((open_fd path fds).0, record { path = path; fd = some (open_fd path fds).1 })
new_handle path false fds = (fds, record { path = path; fd = none })

-- The copy constructor, which the class does not declare: it copies the members.
unfoldable pub copy_handle : FileHandle → FileHandle
copy_handle h = record { path = h.path; fd = h.fd }

-- The destructor.
abbrev close_if_open : Option ℕ → Descriptors → Descriptors
close_if_open none fds = fds
close_if_open (some fd) fds = close_fd fd fds

unfoldable pub destroy_handle : FileHandle → Descriptors → Descriptors
destroy_handle h fds = close_if_open h.fd fds

-- What a call that takes a handle by value does to the descriptors: its parameter is a copy, and is
-- destroyed when the call is over.
unfoldable pub call_with : FileHandle → Descriptors → Descriptors
unfolding copy_handle destroy_handle
call_with h fds = destroy_handle (copy_handle h) fds

-- A function that makes a handle of a file that can be opened, gives it to such a call, and goes on to its end, where the handle is
-- destroyed; `others` is what other threads do to the descriptors after the call.
unfoldable pub use_file : ℕ → (Descriptors → Descriptors) → Descriptors → Descriptors
unfolding new_handle call_with destroy_handle
use_file path others fds =
    let opened : Descriptors × FileHandle = new_handle path true fds in
    destroy_handle opened.1 (others (call_with opened.1 opened.0))

-- The number that was closed is the next one to be handed out.
open_again :
    (f g : ℕ) (fds : Descriptors)
    → ((open_fd g (close_fd (open_fd f fds).1 (open_fd f fds).0)).1 ≡ (open_fd f fds).1)
      × (get_elem? (open_fd g (close_fd (open_fd f fds).1 (open_fd f fds).0)).0 (open_fd f fds).1
          ≡ some (some g))
unfolding open_fd
open_again f g [] = (refl, refl)
open_again f g (none ∷ fds) = (refl, refl)
open_again f g (some other ∷ fds) = let (again, found) = open_again f g fds in (ap suc again, found)

get_elem?-close :
    (fd : ℕ) (fds : Descriptors) (file : ℕ)
    → get_elem? fds fd ≡ some (some file)
    → get_elem? (close_fd fd fds) fd ≡ some none
get_elem?-close zero [] file e = cc
get_elem?-close (suc fd) [] file e = cc
get_elem?-close zero (x ∷ fds) file e = refl
get_elem?-close (suc fd) (x ∷ fds) file e = get_elem?-close fd fds file e

-- Where another thread opens a file `g` after a call that took the handle by value, it is given the
-- descriptor of the handle, which the call has closed already. The end of the function closes that
-- descriptor a second time, and the other thread's file with it.
pub use_file-closes_other :
    (f g : ℕ) (fds : Descriptors)
    → let between : Descriptors = call_with (new_handle f true fds).1 (new_handle f true fds).0 in
      let fd : ℕ = (open_fd g between).1 in
      (get_elem? (open_fd g between).0 fd ≡ some (some g))
      × (get_elem? (use_file f (λ t. (open_fd g t).0) fds) fd ≡ some none)
unfolding use_file
use_file-closes_other f g fds =
    let (again, found) = open_again f g fds in
    (
      rw again found,
      rw again (
          get_elem?-close (open_fd f fds).1
            (open_fd g (close_fd (open_fd f fds).1 (open_fd f fds).0)).0 g found),
    )

-- Where no other thread comes between, the second close does nothing.
close_fd-twice : (fd : ℕ) (fds : Descriptors) → close_fd fd (close_fd fd fds) ≡ close_fd fd fds
close_fd-twice zero [] = refl
close_fd-twice (suc fd) [] = refl
close_fd-twice zero (x ∷ fds) = refl
close_fd-twice (suc fd) (x ∷ fds) = ap (λ (l : Descriptors). x ∷ l) (close_fd-twice fd fds)

use_file-alone :
    (f : ℕ) (fds : Descriptors)
    → use_file f (λ t. t) fds ≡ call_with (new_handle f true fds).1 (new_handle f true fds).0
unfolding use_file
use_file-alone f fds = close_fd-twice (open_fd f fds).1 (open_fd f fds).0
