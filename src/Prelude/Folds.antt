-- ===== src/Prelude/Folds.antt =====
-- The simple case folding of Unicode 15, which `strings.EqualFold` compares by, as runs of characters.
use Prim.Native.Nat.{ℕ}
use mathlib.Core.List.{List, [], ◌∷◌}

-- From a first character to a last one, by a step, with the character that the first folds to.
pub record Run : Type 0 where
  pub first : ℕ
  pub last : ℕ
  pub by : ℕ
  pub onto : ℕ

abbrev run : ℕ → ℕ → ℕ → ℕ → Run
run a b c d = record { first = a; last = b; by = c; onto = d }

abbrev pub runs : List Run
runs =
    run 65 90 1 97
    ∷ run 181 181 1 956
    ∷ run 192 214 1 224
    ∷ run 216 222 1 248
    ∷ run 256 302 2 257
    ∷ run 306 310 2 307
    ∷ run 313 327 2 314
    ∷ run 330 374 2 331
    ∷ run 376 376 1 255
    ∷ run 377 381 2 378
    ∷ run 383 383 1 115
    ∷ run 385 385 1 595
    ∷ run 386 388 2 387
    ∷ run 390 390 1 596
    ∷ run 391 391 1 392
    ∷ run 393 394 1 598
    ∷ run 395 395 1 396
    ∷ run 398 398 1 477
    ∷ run 399 399 1 601
    ∷ run 400 400 1 603
    ∷ run 401 401 1 402
    ∷ run 403 403 1 608
    ∷ run 404 404 1 611
    ∷ run 406 406 1 617
    ∷ run 407 407 1 616
    ∷ run 408 408 1 409
    ∷ run 412 412 1 623
    ∷ run 413 413 1 626
    ∷ run 415 415 1 629
    ∷ run 416 420 2 417
    ∷ run 422 422 1 640
    ∷ run 423 423 1 424
    ∷ run 425 425 1 643
    ∷ run 428 428 1 429
    ∷ run 430 430 1 648
    ∷ run 431 431 1 432
    ∷ run 433 434 1 650
    ∷ run 435 437 2 436
    ∷ run 439 439 1 658
    ∷ run 440 440 1 441
    ∷ run 444 444 1 445
    ∷ run 452 452 1 454
    ∷ run 453 453 1 454
    ∷ run 455 455 1 457
    ∷ run 456 456 1 457
    ∷ run 458 458 1 460
    ∷ run 459 475 2 460
    ∷ run 478 494 2 479
    ∷ run 497 497 1 499
    ∷ run 498 500 2 499
    ∷ run 502 502 1 405
    ∷ run 503 503 1 447
    ∷ run 504 542 2 505
    ∷ run 544 544 1 414
    ∷ run 546 562 2 547
    ∷ run 570 570 1 11365
    ∷ run 571 571 1 572
    ∷ run 573 573 1 410
    ∷ run 574 574 1 11366
    ∷ run 577 577 1 578
    ∷ run 579 579 1 384
    ∷ run 580 580 1 649
    ∷ run 581 581 1 652
    ∷ run 582 590 2 583
    ∷ run 837 837 1 953
    ∷ run 880 882 2 881
    ∷ run 886 886 1 887
    ∷ run 895 895 1 1011
    ∷ run 902 902 1 940
    ∷ run 904 906 1 941
    ∷ run 908 908 1 972
    ∷ run 910 911 1 973
    ∷ run 913 929 1 945
    ∷ run 931 939 1 963
    ∷ run 962 962 1 963
    ∷ run 975 975 1 983
    ∷ run 976 976 1 946
    ∷ run 977 977 1 952
    ∷ run 981 981 1 966
    ∷ run 982 982 1 960
    ∷ run 984 1006 2 985
    ∷ run 1008 1008 1 954
    ∷ run 1009 1009 1 961
    ∷ run 1012 1012 1 952
    ∷ run 1013 1013 1 949
    ∷ run 1015 1015 1 1016
    ∷ run 1017 1017 1 1010
    ∷ run 1018 1018 1 1019
    ∷ run 1021 1023 1 891
    ∷ run 1024 1039 1 1104
    ∷ run 1040 1071 1 1072
    ∷ run 1120 1152 2 1121
    ∷ run 1162 1214 2 1163
    ∷ run 1216 1216 1 1231
    ∷ run 1217 1229 2 1218
    ∷ run 1232 1326 2 1233
    ∷ run 1329 1366 1 1377
    ∷ run 4256 4293 1 11520
    ∷ run 4295 4295 1 11559
    ∷ run 4301 4301 1 11565
    ∷ run 5112 5117 1 5104
    ∷ run 7296 7296 1 1074
    ∷ run 7297 7297 1 1076
    ∷ run 7298 7298 1 1086
    ∷ run 7299 7300 1 1089
    ∷ run 7301 7301 1 1090
    ∷ run 7302 7302 1 1098
    ∷ run 7303 7303 1 1123
    ∷ run 7304 7304 1 42571
    ∷ run 7312 7354 1 4304
    ∷ run 7357 7359 1 4349
    ∷ run 7680 7828 2 7681
    ∷ run 7835 7835 1 7777
    ∷ run 7838 7838 1 223
    ∷ run 7840 7934 2 7841
    ∷ run 7944 7951 1 7936
    ∷ run 7960 7965 1 7952
    ∷ run 7976 7983 1 7968
    ∷ run 7992 7999 1 7984
    ∷ run 8008 8013 1 8000
    ∷ run 8025 8031 2 8017
    ∷ run 8040 8047 1 8032
    ∷ run 8072 8079 1 8064
    ∷ run 8088 8095 1 8080
    ∷ run 8104 8111 1 8096
    ∷ run 8120 8121 1 8112
    ∷ run 8122 8123 1 8048
    ∷ run 8124 8124 1 8115
    ∷ run 8126 8126 1 953
    ∷ run 8136 8139 1 8050
    ∷ run 8140 8140 1 8131
    ∷ run 8152 8153 1 8144
    ∷ run 8154 8155 1 8054
    ∷ run 8168 8169 1 8160
    ∷ run 8170 8171 1 8058
    ∷ run 8172 8172 1 8165
    ∷ run 8184 8185 1 8056
    ∷ run 8186 8187 1 8060
    ∷ run 8188 8188 1 8179
    ∷ run 8486 8486 1 969
    ∷ run 8490 8490 1 107
    ∷ run 8491 8491 1 229
    ∷ run 8498 8498 1 8526
    ∷ run 8544 8559 1 8560
    ∷ run 8579 8579 1 8580
    ∷ run 9398 9423 1 9424
    ∷ run 11264 11311 1 11312
    ∷ run 11360 11360 1 11361
    ∷ run 11362 11362 1 619
    ∷ run 11363 11363 1 7549
    ∷ run 11364 11364 1 637
    ∷ run 11367 11371 2 11368
    ∷ run 11373 11373 1 593
    ∷ run 11374 11374 1 625
    ∷ run 11375 11375 1 592
    ∷ run 11376 11376 1 594
    ∷ run 11378 11378 1 11379
    ∷ run 11381 11381 1 11382
    ∷ run 11390 11391 1 575
    ∷ run 11392 11490 2 11393
    ∷ run 11499 11501 2 11500
    ∷ run 11506 11506 1 11507
    ∷ run 42560 42604 2 42561
    ∷ run 42624 42650 2 42625
    ∷ run 42786 42798 2 42787
    ∷ run 42802 42862 2 42803
    ∷ run 42873 42875 2 42874
    ∷ run 42877 42877 1 7545
    ∷ run 42878 42886 2 42879
    ∷ run 42891 42891 1 42892
    ∷ run 42893 42893 1 613
    ∷ run 42896 42898 2 42897
    ∷ run 42902 42920 2 42903
    ∷ run 42922 42922 1 614
    ∷ run 42923 42923 1 604
    ∷ run 42924 42924 1 609
    ∷ run 42925 42925 1 620
    ∷ run 42926 42926 1 618
    ∷ run 42928 42928 1 670
    ∷ run 42929 42929 1 647
    ∷ run 42930 42930 1 669
    ∷ run 42931 42931 1 43859
    ∷ run 42932 42946 2 42933
    ∷ run 42948 42948 1 42900
    ∷ run 42949 42949 1 642
    ∷ run 42950 42950 1 7566
    ∷ run 42951 42953 2 42952
    ∷ run 42960 42960 1 42961
    ∷ run 42966 42968 2 42967
    ∷ run 42997 42997 1 42998
    ∷ run 43888 43967 1 5024
    ∷ run 65313 65338 1 65345
    ∷ run 66560 66599 1 66600
    ∷ run 66736 66771 1 66776
    ∷ run 66928 66938 1 66967
    ∷ run 66940 66954 1 66979
    ∷ run 66956 66962 1 66995
    ∷ run 66964 66965 1 67003
    ∷ run 68736 68786 1 68800
    ∷ run 71840 71871 1 71872
    ∷ run 93760 93791 1 93792
    ∷ run 125184 125217 1 125218
    ∷ []
