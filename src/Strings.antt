-- ===== src/Strings.antt =====
-- The string and memory routines of the C library, lib/string.c, on a memory of bytes.
pub mod Copy
pub mod Compare
pub mod Duplicate
mod Tests
use jeffos.Base.{
  ℕ, zero, suc, ◌+◌, ◌-◌, ◌%◌, Option, none, some, ◌==◌, ltb, not, ◌&&◌, ◌||◌, if◌then◌else◌, ◌>>=◌,
}

-- A byte at each address.
abbrev pub Bytes : Type 0
Bytes = ℕ → ℕ

abbrev pub store : Bytes → ℕ → ℕ → Bytes
store mem p v a = if a == p then v else mem a

-- The answer -1 is 2 ^ 32 - 1 as a word.
abbrev pub unequal : ℕ
unequal = 0xFFFFFFFF

-- `while(*src) *dst++ = *src++; *dst = 0;`, with fuel for the unbounded loop.
unfoldable pub strcpy : ℕ → Bytes → ℕ → ℕ → Option Bytes
strcpy zero mem dst src = none
strcpy (suc fuel) mem dst src =
    let rest = strcpy fuel (store mem dst (mem src)) (dst + 1) (src + 1) in
    if mem src == 0 then some (store mem dst 0) else rest

-- The loop runs for at most `size` rounds, and the byte 0 is only written with room left.
unfoldable pub strncpy : Bytes → ℕ → ℕ → ℕ → Bytes
strncpy mem dst src zero = mem
strncpy mem dst src (suc size) =
    let rest = strncpy (store mem dst (mem src)) (dst + 1) (src + 1) size in
    if mem src == 0 then store mem dst 0 else rest

unfoldable pub strcmp : ℕ → Bytes → ℕ → ℕ → Option ℕ
strcmp zero mem s1 s2 = none
strcmp (suc fuel) mem s1 s2 =
    let rest = strcmp fuel mem (s1 + 1) (s2 + 1) in
    if not (mem s1 == 0) && not (mem s2 == 0)
    then (if mem s1 == mem s2 then rest else some unequal)
    else some (if not (mem s1 == 0) || not (mem s2 == 0) then unequal else 0)

-- Behind the loop `if(n) return -1;`, where `n` is what is left.
unfoldable pub strncmp : Bytes → ℕ → ℕ → ℕ → ℕ
strncmp mem s1 s2 zero = 0
strncmp mem s1 s2 (suc n) =
    let rest = strncmp mem (s1 + 1) (s2 + 1) n in
    if not (mem s1 == 0) && not (mem s2 == 0)
    then (if mem s1 == mem s2 then rest else unequal)
    else unequal

-- The loop from `str` on, with the count so far.
unfoldable pub strlen_loop : ℕ → Bytes → ℕ → ℕ → Option ℕ
strlen_loop zero mem l str = none
strlen_loop (suc fuel) mem l str =
    let rest = strlen_loop fuel mem (l + 1) (str + 1) in if mem str == 0 then some l else rest

unfoldable pub strlen : ℕ → Bytes → ℕ → Option ℕ
unfolding strlen_loop
strlen fuel mem str = strlen_loop fuel mem 0 str

unfoldable pub memset : Bytes → ℕ → ℕ → ℕ → Bytes
memset mem s c zero = mem
memset mem s c (suc n) = memset (store mem s (c % 256)) (s + 1) c n

-- The two loops of `memmove`, with `n` rounds left: upwards, and downwards from the ends.
unfoldable pub move_up : Bytes → ℕ → ℕ → ℕ → Bytes
move_up mem d s zero = mem
move_up mem d s (suc n) = move_up (store mem d (mem s)) (d + 1) (s + 1) n

unfoldable pub move_down : Bytes → ℕ → ℕ → ℕ → Bytes
move_down mem d s zero = mem
move_down mem d s (suc n) = move_down (store mem (d - 1) (mem (s - 1))) (d - 1) (s - 1) n

unfoldable pub memmove : Bytes → ℕ → ℕ → ℕ → Bytes
unfolding move_up move_down
memmove mem dest src n =
    if ltb dest src then move_up mem dest src n else move_down mem (dest + n) (src + n) n

unfoldable pub memcmp : Bytes → ℕ → ℕ → ℕ → ℕ
memcmp mem dst src zero = 0
memcmp mem dst src (suc size) =
    let rest = memcmp mem (dst + 1) (src + 1) size in if mem dst == mem src then rest else 1

unfoldable pub memcpy : Bytes → ℕ → ℕ → ℕ → Bytes
memcpy mem dst src zero = mem
memcpy mem dst src (suc size) = memcpy (store mem dst (mem src)) (dst + 1) (src + 1) size
