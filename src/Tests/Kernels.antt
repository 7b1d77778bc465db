-- ===== src/Tests/Kernels.antt =====
-- proxypool.go: the line ends of a concrete buffer, by a kernel that keeps the contract.
use proxykit_go.Base.{
  ◌≤◌, min, true, ◌≡◌, refl, arith, inl, inr, some, [], ◌∷◌, false, length, get_or, take,
  length-take,
}
use proxykit_go.Base.Bytes.{Bytes}
use proxykit_go.Pool.Extend.{line_ends, has_crlf, piece}
use proxykit_go.Pool.Capacity.{offsets_limit}
use proxykit_go.Pool.Indexing.{Kernel, IsKernel, Indexed, index_block}
use proxykit_go.Pool.Indexing.Stretches.{length-line_ends_le}
use proxykit_go.Pool.Indexing.Total.{index_block-line_ends}
use proxykit_go.Tests.Blocks.{in_blocks}

-- A kernel that examines as many bytes as it has room for.
abbrev scan : Kernel
scan room s base = record {
  stored = line_ends base (take (min room (length s)) s);
  consumed = min room (length s);
  cr = has_crlf 0 (take (min room (length s)) s);
}

scan-IsKernel : IsKernel scan
scan-IsKernel = record {
  consumed_le = λ room s base. omega arith;
  stores = λ room s base. refl;
  fits = λ room s base. omega (
    arith,
    length-line_ends_le base (take (min room (length s)) s),
    length-take (min room (length s)) s,
  );
  progress = λ room s base wide pos. elim wide [
    | inl many ↦ omega (arith, many, pos)
    | inr enough ↦ omega (arith, enough, pos)
  ];
  hints = λ room s base h. h;
}

abbrev buffer : Bytes
buffer = 10 ∷ b'a' ∷ 10 ∷ b'b' ∷ 13 ∷ []

index_block-line_ends_example :
    (t : Indexed) × (index_block 5 scan in_blocks buffer 1 5
        (record { offsets = 1 ∷ []; capacity = 1; cr = false })
      ≡ some t)
    × (t.offsets ≡ 1 ∷ line_ends 1 (piece buffer 1 5))
    × (length t.offsets ≤ t.capacity)
    × (t.capacity ≤ offsets_limit in_blocks)
    × (has_crlf (get_or buffer 0 0) (piece buffer 1 5) ≡ true → t.cr ≡ true)
unfolding offsets_limit
index_block-line_ends_example =
    index_block-line_ends scan in_blocks buffer 1 5 1 scan-IsKernel (omega arith) (omega arith)
      (omega arith) (omega arith) (omega arith)
