-- ===== src/Request/Trig.antt =====
-- The angles of a rotation: the tables of core/NormalRgaApi.cpp, in 16.16 fixed point.
use librga_rockchip.Base.{ℕ, zero, suc, List, [], ◌∷◌}
use librga_rockchip.Base.Int.{ℤ, pos, negsuc}

-- -n
abbrev minus : ℕ → ℤ
minus zero = pos 0
minus (suc n) = negsuc n

abbrev pub sina_table : List ℤ
sina_table =
    pos 0
    ∷ pos 1144
    ∷ pos 2287
    ∷ pos 3430
    ∷ pos 4572
    ∷ pos 5712
    ∷ pos 6850
    ∷ pos 7987
    ∷ pos 9121
    ∷ pos 10252
    ∷ pos 11380
    ∷ pos 12505
    ∷ pos 13626
    ∷ pos 14742
    ∷ pos 15855
    ∷ pos 16962
    ∷ pos 18064
    ∷ pos 19161
    ∷ pos 20252
    ∷ pos 21336
    ∷ pos 22415
    ∷ pos 23486
    ∷ pos 24550
    ∷ pos 25607
    ∷ pos 26656
    ∷ pos 27697
    ∷ pos 28729
    ∷ pos 29753
    ∷ pos 30767
    ∷ pos 31772
    ∷ pos 32768
    ∷ pos 33754
    ∷ pos 34729
    ∷ pos 35693
    ∷ pos 36647
    ∷ pos 37590
    ∷ pos 38521
    ∷ pos 39441
    ∷ pos 40348
    ∷ pos 41243
    ∷ pos 42126
    ∷ pos 42995
    ∷ pos 43852
    ∷ pos 44695
    ∷ pos 45525
    ∷ pos 46341
    ∷ pos 47143
    ∷ pos 47930
    ∷ pos 48703
    ∷ pos 49461
    ∷ pos 50203
    ∷ pos 50931
    ∷ pos 51643
    ∷ pos 52339
    ∷ pos 53020
    ∷ pos 53684
    ∷ pos 54332
    ∷ pos 54963
    ∷ pos 55578
    ∷ pos 56175
    ∷ pos 56756
    ∷ pos 57319
    ∷ pos 57865
    ∷ pos 58393
    ∷ pos 58903
    ∷ pos 59396
    ∷ pos 59870
    ∷ pos 60326
    ∷ pos 60764
    ∷ pos 61183
    ∷ pos 61584
    ∷ pos 61966
    ∷ pos 62328
    ∷ pos 62672
    ∷ pos 62997
    ∷ pos 63303
    ∷ pos 63589
    ∷ pos 63856
    ∷ pos 64104
    ∷ pos 64332
    ∷ pos 64540
    ∷ pos 64729
    ∷ pos 64898
    ∷ pos 65048
    ∷ pos 65177
    ∷ pos 65287
    ∷ pos 65376
    ∷ pos 65446
    ∷ pos 65496
    ∷ pos 65526
    ∷ pos 65536
    ∷ pos 65526
    ∷ pos 65496
    ∷ pos 65446
    ∷ pos 65376
    ∷ pos 65287
    ∷ pos 65177
    ∷ pos 65048
    ∷ pos 64898
    ∷ pos 64729
    ∷ pos 64540
    ∷ pos 64332
    ∷ pos 64104
    ∷ pos 63856
    ∷ pos 63589
    ∷ pos 63303
    ∷ pos 62997
    ∷ pos 62672
    ∷ pos 62328
    ∷ pos 61966
    ∷ pos 61584
    ∷ pos 61183
    ∷ pos 60764
    ∷ pos 60326
    ∷ pos 59870
    ∷ pos 59396
    ∷ pos 58903
    ∷ pos 58393
    ∷ pos 57865
    ∷ pos 57319
    ∷ pos 56756
    ∷ pos 56175
    ∷ pos 55578
    ∷ pos 54963
    ∷ pos 54332
    ∷ pos 53684
    ∷ pos 53020
    ∷ pos 52339
    ∷ pos 51643
    ∷ pos 50931
    ∷ pos 50203
    ∷ pos 49461
    ∷ pos 48703
    ∷ pos 47930
    ∷ pos 47143
    ∷ pos 46341
    ∷ pos 45525
    ∷ pos 44695
    ∷ pos 43852
    ∷ pos 42995
    ∷ pos 42126
    ∷ pos 41243
    ∷ pos 40348
    ∷ pos 39441
    ∷ pos 38521
    ∷ pos 37590
    ∷ pos 36647
    ∷ pos 35693
    ∷ pos 34729
    ∷ pos 33754
    ∷ pos 32768
    ∷ pos 31772
    ∷ pos 30767
    ∷ pos 29753
    ∷ pos 28729
    ∷ pos 27697
    ∷ pos 26656
    ∷ pos 25607
    ∷ pos 24550
    ∷ pos 23486
    ∷ pos 22415
    ∷ pos 21336
    ∷ pos 20252
    ∷ pos 19161
    ∷ pos 18064
    ∷ pos 16962
    ∷ pos 15855
    ∷ pos 14742
    ∷ pos 13626
    ∷ pos 12505
    ∷ pos 11380
    ∷ pos 10252
    ∷ pos 9121
    ∷ pos 7987
    ∷ pos 6850
    ∷ pos 5712
    ∷ pos 4572
    ∷ pos 3430
    ∷ pos 2287
    ∷ pos 1144
    ∷ pos 0
    ∷ minus 1144
    ∷ minus 2287
    ∷ minus 3430
    ∷ minus 4572
    ∷ minus 5712
    ∷ minus 6850
    ∷ minus 7987
    ∷ minus 9121
    ∷ minus 10252
    ∷ minus 11380
    ∷ minus 12505
    ∷ minus 13626
    ∷ minus 14742
    ∷ minus 15855
    ∷ minus 16962
    ∷ minus 18064
    ∷ minus 19161
    ∷ minus 20252
    ∷ minus 21336
    ∷ minus 22415
    ∷ minus 23486
    ∷ minus 24550
    ∷ minus 25607
    ∷ minus 26656
    ∷ minus 27697
    ∷ minus 28729
    ∷ minus 29753
    ∷ minus 30767
    ∷ minus 31772
    ∷ minus 32768
    ∷ minus 33754
    ∷ minus 34729
    ∷ minus 35693
    ∷ minus 36647
    ∷ minus 37590
    ∷ minus 38521
    ∷ minus 39441
    ∷ minus 40348
    ∷ minus 41243
    ∷ minus 42126
    ∷ minus 42995
    ∷ minus 43852
    ∷ minus 44695
    ∷ minus 45525
    ∷ minus 46341
    ∷ minus 47143
    ∷ minus 47930
    ∷ minus 48703
    ∷ minus 49461
    ∷ minus 50203
    ∷ minus 50931
    ∷ minus 51643
    ∷ minus 52339
    ∷ minus 53020
    ∷ minus 53684
    ∷ minus 54332
    ∷ minus 54963
    ∷ minus 55578
    ∷ minus 56175
    ∷ minus 56756
    ∷ minus 57319
    ∷ minus 57865
    ∷ minus 58393
    ∷ minus 58903
    ∷ minus 59396
    ∷ minus 59870
    ∷ minus 60326
    ∷ minus 60764
    ∷ minus 61183
    ∷ minus 61584
    ∷ minus 61966
    ∷ minus 62328
    ∷ minus 62672
    ∷ minus 62997
    ∷ minus 63303
    ∷ minus 63589
    ∷ minus 63856
    ∷ minus 64104
    ∷ minus 64332
    ∷ minus 64540
    ∷ minus 64729
    ∷ minus 64898
    ∷ minus 65048
    ∷ minus 65177
    ∷ minus 65287
    ∷ minus 65376
    ∷ minus 65446
    ∷ minus 65496
    ∷ minus 65526
    ∷ minus 65536
    ∷ minus 65526
    ∷ minus 65496
    ∷ minus 65446
    ∷ minus 65376
    ∷ minus 65287
    ∷ minus 65177
    ∷ minus 65048
    ∷ minus 64898
    ∷ minus 64729
    ∷ minus 64540
    ∷ minus 64332
    ∷ minus 64104
    ∷ minus 63856
    ∷ minus 63589
    ∷ minus 63303
    ∷ minus 62997
    ∷ minus 62672
    ∷ minus 62328
    ∷ minus 61966
    ∷ minus 61584
    ∷ minus 61183
    ∷ minus 60764
    ∷ minus 60326
    ∷ minus 59870
    ∷ minus 59396
    ∷ minus 58903
    ∷ minus 58393
    ∷ minus 57865
    ∷ minus 57319
    ∷ minus 56756
    ∷ minus 56175
    ∷ minus 55578
    ∷ minus 54963
    ∷ minus 54332
    ∷ minus 53684
    ∷ minus 53020
    ∷ minus 52339
    ∷ minus 51643
    ∷ minus 50931
    ∷ minus 50203
    ∷ minus 49461
    ∷ minus 48703
    ∷ minus 47930
    ∷ minus 47143
    ∷ minus 46341
    ∷ minus 45525
    ∷ minus 44695
    ∷ minus 43852
    ∷ minus 42995
    ∷ minus 42126
    ∷ minus 41243
    ∷ minus 40348
    ∷ minus 39441
    ∷ minus 38521
    ∷ minus 37590
    ∷ minus 36647
    ∷ minus 35693
    ∷ minus 34729
    ∷ minus 33754
    ∷ minus 32768
    ∷ minus 31772
    ∷ minus 30767
    ∷ minus 29753
    ∷ minus 28729
    ∷ minus 27697
    ∷ minus 26656
    ∷ minus 25607
    ∷ minus 24550
    ∷ minus 23486
    ∷ minus 22415
    ∷ minus 21336
    ∷ minus 20252
    ∷ minus 19161
    ∷ minus 18064
    ∷ minus 16962
    ∷ minus 15855
    ∷ minus 14742
    ∷ minus 13626
    ∷ minus 12505
    ∷ minus 11380
    ∷ minus 10252
    ∷ minus 9121
    ∷ minus 7987
    ∷ minus 6850
    ∷ minus 5712
    ∷ minus 4572
    ∷ minus 3430
    ∷ minus 2287
    ∷ minus 1144
    ∷ []

abbrev pub cosa_table : List ℤ
cosa_table =
    pos 65536
    ∷ pos 65526
    ∷ pos 65496
    ∷ pos 65446
    ∷ pos 65376
    ∷ pos 65287
    ∷ pos 65177
    ∷ pos 65048
    ∷ pos 64898
    ∷ pos 64729
    ∷ pos 64540
    ∷ pos 64332
    ∷ pos 64104
    ∷ pos 63856
    ∷ pos 63589
    ∷ pos 63303
    ∷ pos 62997
    ∷ pos 62672
    ∷ pos 62328
    ∷ pos 61966
    ∷ pos 61584
    ∷ pos 61183
    ∷ pos 60764
    ∷ pos 60326
    ∷ pos 59870
    ∷ pos 59396
    ∷ pos 58903
    ∷ pos 58393
    ∷ pos 57865
    ∷ pos 57319
    ∷ pos 56756
    ∷ pos 56175
    ∷ pos 55578
    ∷ pos 54963
    ∷ pos 54332
    ∷ pos 53684
    ∷ pos 53020
    ∷ pos 52339
    ∷ pos 51643
    ∷ pos 50931
    ∷ pos 50203
    ∷ pos 49461
    ∷ pos 48703
    ∷ pos 47930
    ∷ pos 47143
    ∷ pos 46341
    ∷ pos 45525
    ∷ pos 44695
    ∷ pos 43852
    ∷ pos 42995
    ∷ pos 42126
    ∷ pos 41243
    ∷ pos 40348
    ∷ pos 39441
    ∷ pos 38521
    ∷ pos 37590
    ∷ pos 36647
    ∷ pos 35693
    ∷ pos 34729
    ∷ pos 33754
    ∷ pos 32768
    ∷ pos 31772
    ∷ pos 30767
    ∷ pos 29753
    ∷ pos 28729
    ∷ pos 27697
    ∷ pos 26656
    ∷ pos 25607
    ∷ pos 24550
    ∷ pos 23486
    ∷ pos 22415
    ∷ pos 21336
    ∷ pos 20252
    ∷ pos 19161
    ∷ pos 18064
    ∷ pos 16962
    ∷ pos 15855
    ∷ pos 14742
    ∷ pos 13626
    ∷ pos 12505
    ∷ pos 11380
    ∷ pos 10252
    ∷ pos 9121
    ∷ pos 7987
    ∷ pos 6850
    ∷ pos 5712
    ∷ pos 4572
    ∷ pos 3430
    ∷ pos 2287
    ∷ pos 1144
    ∷ pos 0
    ∷ minus 1144
    ∷ minus 2287
    ∷ minus 3430
    ∷ minus 4572
    ∷ minus 5712
    ∷ minus 6850
    ∷ minus 7987
    ∷ minus 9121
    ∷ minus 10252
    ∷ minus 11380
    ∷ minus 12505
    ∷ minus 13626
    ∷ minus 14742
    ∷ minus 15855
    ∷ minus 16962
    ∷ minus 18064
    ∷ minus 19161
    ∷ minus 20252
    ∷ minus 21336
    ∷ minus 22415
    ∷ minus 23486
    ∷ minus 24550
    ∷ minus 25607
    ∷ minus 26656
    ∷ minus 27697
    ∷ minus 28729
    ∷ minus 29753
    ∷ minus 30767
    ∷ minus 31772
    ∷ minus 32768
    ∷ minus 33754
    ∷ minus 34729
    ∷ minus 35693
    ∷ minus 36647
    ∷ minus 37590
    ∷ minus 38521
    ∷ minus 39441
    ∷ minus 40348
    ∷ minus 41243
    ∷ minus 42126
    ∷ minus 42995
    ∷ minus 43852
    ∷ minus 44695
    ∷ minus 45525
    ∷ minus 46341
    ∷ minus 47143
    ∷ minus 47930
    ∷ minus 48703
    ∷ minus 49461
    ∷ minus 50203
    ∷ minus 50931
    ∷ minus 51643
    ∷ minus 52339
    ∷ minus 53020
    ∷ minus 53684
    ∷ minus 54332
    ∷ minus 54963
    ∷ minus 55578
    ∷ minus 56175
    ∷ minus 56756
    ∷ minus 57319
    ∷ minus 57865
    ∷ minus 58393
    ∷ minus 58903
    ∷ minus 59396
    ∷ minus 59870
    ∷ minus 60326
    ∷ minus 60764
    ∷ minus 61183
    ∷ minus 61584
    ∷ minus 61966
    ∷ minus 62328
    ∷ minus 62672
    ∷ minus 62997
    ∷ minus 63303
    ∷ minus 63589
    ∷ minus 63856
    ∷ minus 64104
    ∷ minus 64332
    ∷ minus 64540
    ∷ minus 64729
    ∷ minus 64898
    ∷ minus 65048
    ∷ minus 65177
    ∷ minus 65287
    ∷ minus 65376
    ∷ minus 65446
    ∷ minus 65496
    ∷ minus 65526
    ∷ minus 65536
    ∷ minus 65526
    ∷ minus 65496
    ∷ minus 65446
    ∷ minus 65376
    ∷ minus 65287
    ∷ minus 65177
    ∷ minus 65048
    ∷ minus 64898
    ∷ minus 64729
    ∷ minus 64540
    ∷ minus 64332
    ∷ minus 64104
    ∷ minus 63856
    ∷ minus 63589
    ∷ minus 63303
    ∷ minus 62997
    ∷ minus 62672
    ∷ minus 62328
    ∷ minus 61966
    ∷ minus 61584
    ∷ minus 61183
    ∷ minus 60764
    ∷ minus 60326
    ∷ minus 59870
    ∷ minus 59396
    ∷ minus 58903
    ∷ minus 58393
    ∷ minus 57865
    ∷ minus 57319
    ∷ minus 56756
    ∷ minus 56175
    ∷ minus 55578
    ∷ minus 54963
    ∷ minus 54332
    ∷ minus 53684
    ∷ minus 53020
    ∷ minus 52339
    ∷ minus 51643
    ∷ minus 50931
    ∷ minus 50203
    ∷ minus 49461
    ∷ minus 48703
    ∷ minus 47930
    ∷ minus 47143
    ∷ minus 46341
    ∷ minus 45525
    ∷ minus 44695
    ∷ minus 43852
    ∷ minus 42995
    ∷ minus 42126
    ∷ minus 41243
    ∷ minus 40348
    ∷ minus 39441
    ∷ minus 38521
    ∷ minus 37590
    ∷ minus 36647
    ∷ minus 35693
    ∷ minus 34729
    ∷ minus 33754
    ∷ minus 32768
    ∷ minus 31772
    ∷ minus 30767
    ∷ minus 29753
    ∷ minus 28729
    ∷ minus 27697
    ∷ minus 26656
    ∷ minus 25607
    ∷ minus 24550
    ∷ minus 23486
    ∷ minus 22415
    ∷ minus 21336
    ∷ minus 20252
    ∷ minus 19161
    ∷ minus 18064
    ∷ minus 16962
    ∷ minus 15855
    ∷ minus 14742
    ∷ minus 13626
    ∷ minus 12505
    ∷ minus 11380
    ∷ minus 10252
    ∷ minus 9121
    ∷ minus 7987
    ∷ minus 6850
    ∷ minus 5712
    ∷ minus 4572
    ∷ minus 3430
    ∷ minus 2287
    ∷ minus 1144
    ∷ pos 0
    ∷ pos 1144
    ∷ pos 2287
    ∷ pos 3430
    ∷ pos 4572
    ∷ pos 5712
    ∷ pos 6850
    ∷ pos 7987
    ∷ pos 9121
    ∷ pos 10252
    ∷ pos 11380
    ∷ pos 12505
    ∷ pos 13626
    ∷ pos 14742
    ∷ pos 15855
    ∷ pos 16962
    ∷ pos 18064
    ∷ pos 19161
    ∷ pos 20252
    ∷ pos 21336
    ∷ pos 22415
    ∷ pos 23486
    ∷ pos 24550
    ∷ pos 25607
    ∷ pos 26656
    ∷ pos 27697
    ∷ pos 28729
    ∷ pos 29753
    ∷ pos 30767
    ∷ pos 31772
    ∷ pos 32768
    ∷ pos 33754
    ∷ pos 34729
    ∷ pos 35693
    ∷ pos 36647
    ∷ pos 37590
    ∷ pos 38521
    ∷ pos 39441
    ∷ pos 40348
    ∷ pos 41243
    ∷ pos 42126
    ∷ pos 42995
    ∷ pos 43852
    ∷ pos 44695
    ∷ pos 45525
    ∷ pos 46341
    ∷ pos 47143
    ∷ pos 47930
    ∷ pos 48703
    ∷ pos 49461
    ∷ pos 50203
    ∷ pos 50931
    ∷ pos 51643
    ∷ pos 52339
    ∷ pos 53020
    ∷ pos 53684
    ∷ pos 54332
    ∷ pos 54963
    ∷ pos 55578
    ∷ pos 56175
    ∷ pos 56756
    ∷ pos 57319
    ∷ pos 57865
    ∷ pos 58393
    ∷ pos 58903
    ∷ pos 59396
    ∷ pos 59870
    ∷ pos 60326
    ∷ pos 60764
    ∷ pos 61183
    ∷ pos 61584
    ∷ pos 61966
    ∷ pos 62328
    ∷ pos 62672
    ∷ pos 62997
    ∷ pos 63303
    ∷ pos 63589
    ∷ pos 63856
    ∷ pos 64104
    ∷ pos 64332
    ∷ pos 64540
    ∷ pos 64729
    ∷ pos 64898
    ∷ pos 65048
    ∷ pos 65177
    ∷ pos 65287
    ∷ pos 65376
    ∷ pos 65446
    ∷ pos 65496
    ∷ pos 65526
    ∷ []

-- table[i]
abbrev pub entry : List ℤ → ℕ → ℤ
entry [] i = pos 0
entry (x ∷ xs) zero = x
entry (x ∷ xs) (suc i) = entry xs i
