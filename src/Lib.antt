-- ===== src/Lib.antt =====
-- The Python tools of the repository: the generator of the Git index fixtures, with the Zig
-- decoder that reads them, the YAML subset loader of the inventory gates, the generator of the
-- golden vectors, the golden runner, and the checks of allowlists, of the file inventory, of
-- the API inventories and of the metrics.
--
-- How the parts meet: gen_index_fixtures.py packs index images and keeps them in a directory;
-- decoder.zig reads such images. simple_yaml.py loads the documents that run_goldens.py,
-- check_allowlists.py, check_file_inventory.py, check_api_inventory.py and check_metrics.py
-- judge against a source tree. The API check resolves Zig paths by the functions of the file
-- inventory, and the metrics check counts by those and by the entries of the allowlists.
--
-- Common: shared names, lists, and the methods of `str` and `bytes` that the tools call.
-- Index and its children: tools/gen_index_fixtures.py. Each encoder is the function of the
-- same name; a value that `struct.pack` refuses is an `err`. Index.Image has `finish`,
-- `build_v2`, `build_v3`, `build_v4` and `build_all` over the digest `hashlib.sha1`, a
-- parameter. Index.Directory has `write_outdir` and `check_dir` over a directory state, a list
-- of names with their bytes; they return the `SystemExit`s as values.
-- Index.Embed: the arrays of fixtures.zig, `zig_byte_array`, `extract_zig_raw`,
-- `embed_fixtures_zig` and `check_embed` of the same file. Each regular expression is a
-- function that follows it from one place of the text, and one that tries the places in turn;
-- what a repetition takes and what may follow it are different characters, and the lazy one
-- stops at the first end of an array, so that the first match is the only one that counts.
-- Index.Reader: the functions of src/plumbing/format/index/decoder.zig that read the header
-- and the entries of versions 2 to 4, for SHA-1, with the cast of `Time.unix` of index.zig.
-- Its readers take the bytes and return those that are left.
-- Vectors: tools/golden/gen_vectors.py, `zig_string` and the lines that `main` writes.
-- Yaml: tools/inventory/simple_yaml.py. Yaml.Clean is the loop of `load` with
-- `_strip_comment`, Yaml.Block is `_parse_block`, `_parse_map`, `_parse_list` and `load`,
-- Yaml.Scalar is `_parse_scalar` and `_split_flow`. The position of a parser is the list of
-- the lines from there on. Yaml.Block.Print prints documents for a round trip through `load`;
-- the repository has no printer.
-- Files: the file system that the tools read, as a record of what it answers, with the path
-- functions of the standard library. `realpath` is taken to return absolute paths.
-- Goldens: tools/golden/run_goldens.py. Allowlists: tools/inventory/check_allowlists.py.
-- Inventory: tools/inventory/check_file_inventory.py, with its functions on the source tree in
-- Inventory.Tree. Api: tools/inventory/check_api_inventory.py, with `validate_schema` in
-- Api.Schema, `load_packages_index` in Api.Packages and the Zig text in Api.Symbols; the
-- counters of the loop of `check`, in Api.Counters, are summed over the files. MetricsGate:
-- tools/inventory/check_metrics.py, with `parse_pin_from_md` in MetricsGate.Pin, the counts in
-- MetricsGate.Measures and the thresholds in MetricsGate.Limits; the arithmetic of `float` and
-- `str.isalnum` are parameters. Gates: the gates together on one packages document. The self
-- tests are in the SelfTest module of each part, over Files.Disk, the operations by which they
-- write to a temporary directory, none of which fails; Files.Disk.Memory is such a disk, on
-- which Gates.SelfTests and Goldens.SelfTest.Examples run them. Messages are values that name
-- what the texts name, and an exception that no handler catches is an `err`.
--
-- Numbers are natural numbers without bound where Python has `int`; the limit of 4300 digits
-- that `int` has by default, the decoder's limit of 2 ^ 63 on a varint and its limit on the
-- length of a path are written out. Fuel: the block parser has 4 * n + 4 for n lines, since at
-- most four calls stand between two lines that are used up, and the scalar parser has one more
-- than the length of its text, since a part of a flow list is shorter than the list. The
-- varint encoder recurses on accessibility.
--
-- Not modelled: the argument parsers and the printing of the sorted metrics, so that each
-- `main` (in the Main module of its part, with Cli for what the tools share) starts from the
-- parsed arguments, without the branch to the self test, and its report stands for what is
-- printed; the extensions and the checksum of the decoder; the rounding of a float to binary;
-- a text file that is opened as UTF-8 and holds other bytes, whose `UnicodeDecodeError` no
-- tool catches, so that all statements are about file systems whose documents are UTF-8; and
-- the rest of the Zig port, of which only the decoder meets the tools. A run of the generator
-- that stops with an error returns the error alone, without what it had written.
pub mod Allowlists
pub mod Api
pub mod Cli
pub mod Common
pub mod Files
pub mod Gates
pub mod Goldens
pub mod Index
pub mod Inventory
pub mod MetricsGate
pub mod Vectors
pub mod Yaml
