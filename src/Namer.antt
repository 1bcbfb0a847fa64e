-- ===== src/Namer.antt =====
-- The name server, srv/namer/namer.c.
pub mod Find
pub mod Entry
pub mod Register
mod Tests
use jeffos.Base.{
  ℕ, zero, suc, ◌+◌, ◌*◌, Option, some, Bool, true, false, ◌==◌, if◌then◌else◌, ◌>>=◌,
}
use jeffos.Kernel.{err_permission, err_memory}
use jeffos.Strings.{Bytes, store, strcpy, strcmp}

-- The static variables: `names` is at the address `table` of the server's memory.
pub record Names : Type 0 where
  pub mem : Bytes
  pub table : ℕ
  pub ports : ℕ → ℕ
  pub count : ℕ

-- The address of `names[i]`.
abbrev pub name_at : Names → ℕ → ℕ
name_at st i = st.table + 32 * i

-- `NAMER_TEXT_MAX`, which is more than the length of every name: enough fuel for the strings.
abbrev pub text_max : ℕ
text_max = 32

-- Whether one of the `n` entries from the `i`th on is the port's: the loop of `port_register`.
unfoldable pub has_port : (ℕ → ℕ) → ℕ → ℕ → ℕ → Bool
has_port ports port i zero = false
has_port ports port i (suc n) =
    let rest = has_port ports port (i + 1) n in if ports i == port then true else rest

-- The entry that `port_register` fills, when the name has been copied.
abbrev pub enter : Names → ℕ → Bytes → Names
enter st port mem = record st {
  mem = mem;
  ports = store st.ports st.count port;
  count = st.count + 1;
}

unfoldable pub port_register : Names → ℕ → ℕ → Option (ℕ × Names)
unfolding has_port
port_register st port name =
    if has_port st.ports port 0 st.count
    then some (err_permission, st)
    else if st.count == 32
    then some (err_memory, st)
    else strcpy text_max st.mem (name_at st st.count) name >>= λ mem. some (0, enter st port mem)

-- The loop of `port_find` over the `n` entries from the `i`th on.
unfoldable pub find_from : Names → ℕ → ℕ → ℕ → Option ℕ
find_from st name i zero = some 0
find_from st name i (suc n) =
    let rest = find_from st name (i + 1) n in
    strcmp text_max st.mem name (name_at st i) >>= λ c. if c == 0 then some (st.ports i) else rest

unfoldable pub port_find : Names → ℕ → Option ℕ
unfolding find_from
port_find st name = find_from st name 0 st.count

-- What `main` does with a request, whose text is at `text`: the number that it answers.
unfoldable pub answer : Names → ℕ → ℕ → Option (ℕ × Names)
unfolding port_register port_find
answer st number text =
    let ended : Names = record st { mem = store st.mem (text + 31) 0 } in
    if number == 0
    then (port_find ended text >>= λ port. some (port, ended))
    else port_register ended number text
