-- ===== src/Fs/Inode.antt =====
-- src/fs/inode.rs: the kind of an inode, from its Unix mode.
use rdwarfs.Prelude.{ℕ, Bool, true, false, ◌==◌, if◌then◌else◌, bit_and}

pub data InodeKind : Type 0 where
  directory symlink regular char_device block_device fifo socket unknown : InodeKind

-- The file-type bits, in octal 170000, 040000, 020000, 060000, 100000, 010000, 120000 and 140000.
abbrev pub s_ifmt : ℕ
s_ifmt = 61440

abbrev pub s_ifdir : ℕ
s_ifdir = 16384

abbrev pub s_ifchr : ℕ
s_ifchr = 8192

abbrev pub s_ifblk : ℕ
s_ifblk = 24576

abbrev pub s_ifreg : ℕ
s_ifreg = 32768

abbrev pub s_ififo : ℕ
s_ififo = 4096

abbrev pub s_iflnk : ℕ
s_iflnk = 40960

abbrev pub s_ifsock : ℕ
s_ifsock = 49152

-- The `match` on the file-type bits.
unfoldable pub kind_of_bits : ℕ → InodeKind
kind_of_bits bits =
    if bits == s_ifdir
    then directory
    else if bits == s_iflnk
    then symlink
    else if bits == s_ifreg
    then regular
    else if bits == s_ifchr
    then char_device
    else if bits == s_ifblk
    then block_device
    else if bits == s_ififo
    then fifo
    else if bits == s_ifsock
    then socket
    else unknown

unfoldable pub mode_kind : ℕ → InodeKind
mode_kind mode = kind_of_bits (bit_and mode s_ifmt)

-- `kind == InodeKind::Directory` and its like.
abbrev pub is_directory : InodeKind → Bool
is_directory kind = elim kind [ directory ↦ true | _ ↦ false ]

abbrev pub is_symlink : InodeKind → Bool
is_symlink kind = elim kind [ symlink ↦ true | _ ↦ false ]

abbrev pub is_regular : InodeKind → Bool
is_regular kind = elim kind [ regular ↦ true | _ ↦ false ]

abbrev pub is_device : InodeKind → Bool
is_device kind = elim kind [ char_device ↦ true | block_device ↦ true | _ ↦ false ]

abbrev pub is_special : InodeKind → Bool
is_special kind = elim kind [ fifo ↦ true | socket ↦ true | _ ↦ false ]
