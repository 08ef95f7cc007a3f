-- ===== src/Elf/Image.antt =====
-- The bytes of an ELF image, and the checks of its headers, in kernel-core/src/elf.rs.
use open_kernel.Prelude.{
  ℕ, ◌+◌, ◌*◌, ◌/◌, ◌^◌, Bool, not, ◌&&◌, ◌||◌, if◌then◌else◌, ◌==◌, ltb, leb, Option, none, some,
  has_value, List, [], ◌∷◌, length, take, drop, Result, ok, err, first_from, bit_and, is_some_of,
}
use open_kernel.Storage.Names.{names_equal}

abbrev pub elf_header_size : ℕ
elf_header_size = 64

abbrev pub program_header_size : ℕ
program_header_size = 56

abbrev pub program_header_load : ℕ
program_header_load = 1

abbrev pub program_header_tls : ℕ
program_header_tls = 7

abbrev pub user_space_end : ℕ
user_space_end = 0x800000000000

-- `FUTURE_USER_SPACE_BASE` of paging.rs
abbrev pub future_user_space_base : ℕ
future_user_space_base = 0x40000000

abbrev pub page_size : ℕ
page_size = 4096

-- The errors and the flags of paging.rs.
pub data PagingError : Type 0 where
  frame_allocation_failed huge_page_conflict already_mapped invalid_user_address : PagingError

pub data PageFlags : Type 0 where
  kernel_read_write device user_read_only user_read_write user_read_execute : PageFlags
  user_read_write_execute : PageFlags

pub data ElfError : Type 0 where
  invalid_header unsupported_executable invalid_program_header invalid_segment
        no_executable_segment :
      ElfError
  paging_error : PagingError → ElfError

pub record TlsImage : Type 0 where
  pub file_offset : ℕ
  pub file_size : ℕ
  pub memory_size : ℕ
  pub align : ℕ

-- What the loop reads of a loadable program header.
pub record Segment : Type 0 where
  pub flags : ℕ
  pub file_offset : ℕ
  pub virtual_address : ℕ
  pub file_size : ℕ
  pub memory_size : ℕ

-- `bytes.get(offset..offset + n)`
abbrev pub get_range : List ℕ → ℕ → ℕ → Option (List ℕ)
get_range bytes offset n =
    if leb (offset + n) (length bytes) then some (take n (drop offset bytes)) else none

-- `from_le_bytes`
unfoldable pub from_le_bytes : List ℕ → ℕ
from_le_bytes [] = 0
from_le_bytes (byte ∷ rest) = byte + 256 * from_le_bytes rest

abbrev pub read_le : ℕ → List ℕ → ℕ → Option ℕ
read_le n bytes offset = elim (get_range bytes offset n) [
  | none ↦ none
  | some data_ ↦ some (from_le_bytes data_)
]

-- `None` stands for the error `InvalidHeader`.
unfoldable pub read_u16 : List ℕ → ℕ → Option ℕ
read_u16 bytes offset = read_le 2 bytes offset

unfoldable pub read_u32 : List ℕ → ℕ → Option ℕ
read_u32 bytes offset = read_le 4 bytes offset

unfoldable pub read_u64 : List ℕ → ℕ → Option ℕ
read_u64 bytes offset = read_le 8 bytes offset

-- The condition of the first test, negated: the magic number, the class, the byte order, the version,
-- the type, the machine and the sizes. A failed read ends in the same error as a failed comparison.
unfoldable pub header_is_valid : List ℕ → Bool
header_is_valid image =
    leb elf_header_size (length image)
    && (names_equal (take 7 image) (0x7F ∷ 69 ∷ 76 ∷ 70 ∷ 2 ∷ 1 ∷ 1 ∷ [])
        && (is_some_of (read_u16 image 16) 2
            && (is_some_of (read_u16 image 18) 0x3E
                && (is_some_of (read_u32 image 20) 1
                    && (is_some_of (read_u16 image 52) elf_header_size
                        && is_some_of (read_u16 image 54) program_header_size)))))

-- `a.checked_add(b)` on `u64`
abbrev pub checked_add : ℕ → ℕ → Option ℕ
checked_add a b = if ltb (a + b) (2 ^ 64) then some (a + b) else none

-- `address & !(PAGE_SIZE - 1)`
abbrev pub page_of : ℕ → ℕ
page_of address = address / page_size * page_size

-- `flags & flag != 0`
abbrev pub has_flag : ℕ → ℕ → Bool
has_flag flags flag = not (bit_and flags flag == 0)

abbrev pub flags_of : ℕ → PageFlags
flags_of flags =
    if has_flag flags 2
    then if has_flag flags 1 then user_read_write_execute else user_read_write
    else if has_flag flags 1
    then user_read_execute
    else user_read_only

-- `align.is_power_of_two()`
abbrev pub is_power_of_two : ℕ → Bool
is_power_of_two n = has_value (first_from (λ i. n == 2 ^ i) 0 64)

-- The checks of a thread-local segment.
abbrev pub tls_of : List ℕ → TlsImage → Result ElfError TlsImage
tls_of image t =
    if ltb t.memory_size t.file_size
      || ((ltb (length image) (t.file_offset + t.file_size)
            || leb (2 ^ 64) (t.file_offset + t.file_size))
          || (not (t.align == 0) && not (is_power_of_two t.align)))
    then err invalid_program_header
    else ok t

unfoldable pub checked_tls : List ℕ → ℕ → Result ElfError TlsImage
checked_tls image at = elim (read_u64 image (at + 8)) [
  | none ↦ err invalid_header
  | some file_offset ↦ elim (read_u64 image (at + 32)) [
    | none ↦ err invalid_header
    | some file_size ↦ elim (read_u64 image (at + 40)) [
      | none ↦ err invalid_header
      | some memory_size ↦ elim (read_u64 image (at + 48)) [
        | none ↦ err invalid_header
        | some align ↦ tls_of image (record {
          file_offset = file_offset;
          file_size = file_size;
          memory_size = memory_size;
          align = align;
        })
      ]
    ]
  ]
]

-- The checks of a loadable segment.
unfoldable pub segment_of : List ℕ → Segment → Result ElfError Segment
segment_of image s =
    if ltb s.memory_size s.file_size
    then err invalid_segment
    else elim (checked_add s.file_offset s.file_size) [
      | none ↦ err invalid_segment
      | some file_end ↦ elim (checked_add s.virtual_address s.memory_size) [
        | none ↦ err invalid_segment
        | some memory_end ↦
            if s.memory_size == 0
              || (ltb (length image) file_end
                  || (ltb s.virtual_address future_user_space_base
                      || ltb user_space_end memory_end))
            then err invalid_segment
            else ok s
      ]
    ]

unfoldable pub checked_segment : List ℕ → ℕ → Result ElfError Segment
checked_segment image at = elim (read_u32 image (at + 4)) [
  | none ↦ err invalid_header
  | some flags ↦ elim (read_u64 image (at + 8)) [
    | none ↦ err invalid_header
    | some file_offset ↦ elim (read_u64 image (at + 16)) [
      | none ↦ err invalid_header
      | some virtual_address ↦ elim (read_u64 image (at + 32)) [
        | none ↦ err invalid_header
        | some file_size ↦ elim (read_u64 image (at + 40)) [
          | none ↦ err invalid_header
          | some memory_size ↦ segment_of image (record {
            flags = flags;
            file_offset = file_offset;
            virtual_address = virtual_address;
            file_size = file_size;
            memory_size = memory_size;
          })
        ]
      ]
    ]
  ]
]
